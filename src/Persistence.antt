-- ===== src/Persistence.antt =====
-- persistence/state_container.go: the column that holds the position of an instance, as it is written
-- (Value) and read (Scan).
pub mod RoundTrip
use brokr.Common.{String, Option, none, some}
use brokr.Model.Json.{Codec, decode_state}
use brokr.Model.Workflow.{State}

-- A StateContainer in memory: either interface may be nil.
pub record Cell : Type 0 where
  pub state : Option State
  pub substate : Option State

abbrev pub empty : Cell
empty = record { state = none; substate = none }

-- What a driver hands to Scan: nil, []byte, string, or a value of another type.
pub data Source (B : Type 0) : Type 0 where
  null : Source B
  bytes : B → Source B
  text : B → Source B
  other : Source B

pub data ColumnError : Type 0 where
  state_not_marshalled : ColumnError
  substate_not_marshalled : ColumnError
  envelope_not_marshalled : ColumnError
  unsupported_source : ColumnError
  envelope_not_read : ColumnError
  state_not_decoded : ColumnError

-- stateEnvelope, with `none` for a raw message of no bytes
pub record StateEnvelope (B : Type 0) : Type 0 where
  pub state : Option B
  pub substate : Option B

-- encoding/json on the envelope
pub record EnvelopeCodec (B : Type 0) : Type 0 where
  pub marshal_envelope : StateEnvelope B → Option B
  pub unmarshal_envelope : B → Option (StateEnvelope B)

pub data Written (B : Type 0) : Type 0 where
  nil_value : Written B
  written : B → Written B
  refused : ColumnError → Written B

module _ {B : Type 0} (codec : Codec B) (envelopes : EnvelopeCodec B) where
  write_envelope : Option B → Written B
  write_envelope none = refused envelope_not_marshalled
  write_envelope (some b) = written b

  with_substate_json : B → Option B → Written B
  unfolding write_envelope
  with_substate_json state_json none = refused substate_not_marshalled
  with_substate_json state_json (some sub_json) =
      write_envelope
        (envelopes.marshal_envelope (record { state = some state_json; substate = some sub_json }))

  with_substate : B → Option State → Written B
  unfolding write_envelope with_substate_json
  with_substate state_json none =
      write_envelope
        (envelopes.marshal_envelope (record { state = some state_json; substate = none }))
  with_substate state_json (some sub) = with_substate_json state_json (codec.marshal_state sub)

  with_state : Option B → Option State → Written B
  unfolding with_substate
  with_state none sub = refused state_not_marshalled
  with_state (some state_json) sub = with_substate state_json sub

  value_of : Option State → Option State → Written B
  unfolding with_state
  value_of none sub = nil_value
  value_of (some s) sub = with_state (codec.marshal_state s) sub

  -- Value
  unfoldable pub value : Cell → Written B
  unfolding value_of
  value c = value_of c.state c.substate

  -- A state alone, from a legacy row or before the substate is read; an error leaves the cell as it was.
  scan_state : Option State → Cell → Option ColumnError × Cell
  scan_state none c = (some state_not_decoded, c)
  scan_state (some s) c = (none, record { state = some s; substate = none })

  scan_substate : Option State → Cell → Option ColumnError × Cell
  scan_substate none c = (some state_not_decoded, c)
  scan_substate (some sub) c = (none, record c { substate = some sub })

  -- if len(env.Substate) > 0
  then_substate : Option B → Option ColumnError × Cell → Option ColumnError × Cell
  unfolding scan_substate
  then_substate sub (some e, c) = (some e, c)
  then_substate none (none, c) = (none, c)
  then_substate (some sub_json) (none, c) = scan_substate (decode_state codec sub_json) c

  scan_envelope : B → Option (StateEnvelope B) → Cell → Option ColumnError × Cell
  unfolding scan_state then_substate
  scan_envelope data' none c = (some envelope_not_read, c)
  scan_envelope data' (some env) c = elim env.state [
    | none ↦ scan_state (decode_state codec data') c
    | some state_json ↦ then_substate env.substate (scan_state (decode_state codec state_json) c)
  ]

  scan_data : B → Cell → Option ColumnError × Cell
  unfolding scan_envelope
  scan_data data' c = scan_envelope data' (envelopes.unmarshal_envelope data') c

  -- Scan
  unfoldable pub scan : Source B → Cell → Option ColumnError × Cell
  unfolding scan_data
  scan null c = (none, empty)
  scan (bytes b) c = scan_data b c
  scan (text b) c = scan_data b c
  scan other c = (some unsupported_source, c)
