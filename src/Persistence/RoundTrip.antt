-- ===== src/Persistence/RoundTrip.antt =====
-- A position is read as it was written, whatever the container held before.
use brokr.Common.{Option, none, some, ◌≡◌, ◌≢◌, refl, ap, sym, ◌∙◌, arith}
use brokr.Model.Json.{Codec, decode_state}
use brokr.Model.Json.RoundTrip.{IsTyped, Faithful, decode_state-marshal}
use brokr.Model.Workflow.{State}
use brokr.Persistence.{
  Cell, empty, Source, null, bytes, text, EnvelopeCodec, Written, nil_value, written, value,
  value_of, with_state, with_substate, with_substate_json, write_envelope, scan, scan_data,
  scan_envelope, scan_state, scan_substate, then_substate,
}

abbrev AreStorable : Option State → Option State → Type 0
AreStorable none none = Unit
AreStorable none (some sub) = ⊥
AreStorable (some s) none = IsTyped s
AreStorable (some s) (some sub) = IsTyped s × IsTyped sub

-- The types of the state and the substate name their structs and their actions are plain; without a state there is no substate.
abbrev pub IsStorable : Cell → Type 0
IsStorable c = AreStorable c.state c.substate

-- What a driver may hand back for what it was given.
abbrev pub IsStored : {B : Type 0} → Written B → Source B → Type 0
IsStored nil_value null = Unit
IsStored (written b) (bytes b') = b ≡ b'
IsStored (written b) (text b') = b ≡ b'
IsStored _ _ = ⊥

-- encoding/json reads the envelope that it has written around a state.
pub record ReadsBack {B : Type 0} (envelopes : EnvelopeCodec B) : Type 0 where
  pub read :
      (state_json : B) (substate : Option B) (b : B)
      → envelopes.marshal_envelope (record { state = some state_json; substate = substate })
        ≡ some b
      → envelopes.unmarshal_envelope b
        ≡ some (record { state = some state_json; substate = substate })

-- A bare state has no key `state`.
pub record ReadsBare {B : Type 0} (codec : Codec B) (envelopes : EnvelopeCodec B) : Type 0 where
  pub bare :
      (s : State) (b : B)
      → codec.marshal_state s ≡ some b
      → envelopes.unmarshal_envelope b ≡ some (record { state = none; substate = none })

module _ {B : Type 0} (codec : Codec B) (envelopes : EnvelopeCodec B)
    (faithful : Faithful codec) where
  written-envelope :
      (r : Option B) {b : B} → write_envelope codec envelopes r ≡ written b → r ≡ some b
  unfolding write_envelope
  written-envelope none e = ground arith
  written-envelope (some b) e = ground arith

  envelope-ne-nil : (r : Option B) → write_envelope codec envelopes r ≢ nil_value
  unfolding write_envelope
  envelope-ne-nil none e = cc
  envelope-ne-nil (some b) e = cc

  substate-ne-nil :
      (json : B) (o : Option B) → with_substate_json codec envelopes json o ≢ nil_value
  unfolding with_substate_json
  substate-ne-nil json none e = cc
  substate-ne-nil json (some sub_json) e = envelope-ne-nil _ e

  state-ne-nil : (o : Option B) (sub : Option State) → with_state codec envelopes o sub ≢ nil_value
  unfolding with_state with_substate
  state-ne-nil none sub e = cc
  state-ne-nil (some json) none e = envelope-ne-nil _ e
  state-ne-nil (some json) (some sub) e = substate-ne-nil json (codec.marshal_state sub) e

  -- Only a container without a state is written as NULL.
  value_nil :
      (state sub : Option State)
      → AreStorable state sub
      → value_of codec envelopes state sub ≡ nil_value
      → record { state = state; substate = sub } ≡ empty
  unfolding value_of
  value_nil none none t e = refl
  value_nil none (some sub) t e = absurd t
  value_nil (some s) sub t e = absurd (state-ne-nil (codec.marshal_state s) sub e)

  module _ (back : ReadsBack envelopes) (old : Cell) where
    -- The envelope of a state that decodes, and of its substate.
    scan_alone :
        (s : State) (state_json b : B)
        → decode_state codec state_json ≡ some s
        → write_envelope codec envelopes
            (envelopes.marshal_envelope (record { state = some state_json; substate = none }))
          ≡ written b
        → scan_data codec envelopes b old ≡ (none, record { state = some s; substate = none })
    unfolding scan_data scan_envelope scan_state then_substate
    scan_alone s state_json b d w = rw (back.read state_json none b (written-envelope _ w), d) refl

    scan_inside :
        (s sub : State) (state_json sub_json b : B)
        → decode_state codec state_json ≡ some s
        → decode_state codec sub_json ≡ some sub
        → write_envelope codec envelopes (
            envelopes.marshal_envelope
              (record { state = some state_json; substate = some sub_json }))
          ≡ written b
        → scan_data codec envelopes b old ≡ (none, record { state = some s; substate = some sub })
    unfolding scan_data scan_envelope scan_state then_substate scan_substate
    scan_inside s sub state_json sub_json b d d' w =
        rw (back.read state_json (some sub_json) b (written-envelope _ w), d, d') refl

    scan_both :
        (s sub : State) (state_json : B) (o : Option B) (b : B)
        → decode_state codec state_json ≡ some s
        → codec.marshal_state sub ≡ o
        → IsTyped sub
        → with_substate_json codec envelopes state_json o ≡ written b
        → scan_data codec envelopes b old ≡ (none, record { state = some s; substate = some sub })
    unfolding with_substate_json
    scan_both s sub state_json none b d m t w = ground arith
    scan_both s sub state_json (some sub_json) b d m t w =
        scan_inside s sub state_json sub_json b d
          (decode_state-marshal codec faithful sub sub_json t m) w

    scan_marshalled :
        (s : State) (sub : Option State) (o : Option B) (b : B)
        → AreStorable (some s) sub
        → codec.marshal_state s ≡ o
        → with_state codec envelopes o sub ≡ written b
        → scan_data codec envelopes b old ≡ (none, record { state = some s; substate = sub })
    unfolding with_state with_substate
    scan_marshalled s sub none b t m w = ground arith
    scan_marshalled s none (some json) b t m w =
        scan_alone s json b (decode_state-marshal codec faithful s json t m) w
    scan_marshalled s (some sub) (some json) b (t, t') m w =
        scan_both s sub json (codec.marshal_state sub) b
          (decode_state-marshal codec faithful s json t m) refl t' w

    scan_written :
        (state sub : Option State) (b : B)
        → AreStorable state sub
        → value_of codec envelopes state sub ≡ written b
        → scan_data codec envelopes b old ≡ (none, record { state = state; substate = sub })
    unfolding value_of
    scan_written none none b t w = ground arith
    scan_written none (some sub) b t w = absurd t
    scan_written (some s) sub b t w = scan_marshalled s sub (codec.marshal_state s) b t refl w

    scan_stored :
        (c : Cell) (w : Written B) (source : Source B)
        → value codec envelopes c ≡ w
        → IsStorable c
        → IsStored w source
        → scan codec envelopes source old ≡ (none, c)
    unfolding scan value
    scan_stored c nil_value null e t h =
        ap (λ d. (none, d)) (sym (value_nil c.state c.substate t e))
    scan_stored c (written b) (bytes b') e t h =
        scan_written c.state c.substate b' t (e ∙ ap written h)
    scan_stored c (written b) (text b') e t h =
        scan_written c.state c.substate b' t (e ∙ ap written h)
    scan_stored c _ _ e t h = absurd h

    -- Where encoding/json reads what it has written, Scan reads from what Value has returned, as bytes or
    -- as text, the position that Value was called on, whatever the container held before, if every state
    -- of the position has the type field of its Go type, none of its actions or transitions holds the
    -- definition of a child, no action has more than one variable, a history that is one of the
    -- constants stands as that constant, and a substate stands in a state.
    pub scan-value :
        (c : Cell) (source : Source B)
        → IsStorable c
        → IsStored (value codec envelopes c) source
        → scan codec envelopes source old ≡ (none, c)
    scan-value c source t h = scan_stored c (value codec envelopes c) source refl t h

  -- A legacy row, which holds a bare state, is read as that state without a substate.
  pub scan-legacy :
      (bare : ReadsBare codec envelopes) (old : Cell) (s : State) (b : B)
      → IsTyped s
      → codec.marshal_state s ≡ some b
      → scan codec envelopes (bytes b) old ≡ (none, record { state = some s; substate = none })
  unfolding scan scan_data scan_envelope scan_state
  scan-legacy bare old s b t m =
      rw (bare.bare s b m, decode_state-marshal codec faithful s b t m) refl
