-- ===== src/Tests/Reading.antt =====
-- A codec for which documents are trees, and what is read from what was written.
use mathlib.Core.List.{Memᴰ}
use brokr.Common.{
  ℕ, suc, ◌+◌, ◌<◌, Option, none, some, List, [], ◌∷◌, ◌≡◌, refl, ap, sym, subst, arith, inl,
}
use brokr.Model.Kinds.{HistoryKind}
use brokr.Model.State.{get_type}
use brokr.Model.Workflow.{
  StateFields, State, simple, action_state, composite, composite_state, States, nil, cons,
  nil_actions, nil_transitions, nil_common, Workflow, workflow,
}
use brokr.Model.Json.{CompositeAlias, Codec, decode_workflow}
use brokr.Model.Json.Fixpoint.{Nested}
use brokr.Model.Json.RoundTrip.{IsTyped, AllTyped, Encodes, Faithful, decode_workflow-marshal}
use brokr.Persistence.{Cell, Source, text, EnvelopeCodec, value, scan}
use brokr.Persistence.RoundTrip.{IsStored, ReadsBack, scan-value}
use brokr.Tests.Fixture.{named, order}

data Doc : Type 0 where
  state_doc : State → Doc
  workflow_doc : Workflow → Doc
  alone : Doc → Doc
  inside : Doc → Doc → Doc

mutual
  states_in : State → ℕ
  states_in (simple f) = 1
  states_in (action_state f expect entry exit activity) = 1
  states_in (composite (composite_state f entry exit initial subs ts h)) = suc (all_in subs)

  all_in : States → ℕ
  all_in nil = 0
  all_in (cons s ss) = states_in s + all_in ss

abbrev docs : States → List Doc
docs nil = []
docs (cons s ss) = state_doc s ∷ docs ss

abbrev trees : Codec Doc
trees = record {
  size = λ d. elim d [ state_doc s ↦ states_in s | _ ↦ 0 ];
  peek = λ d. elim d [ state_doc s ↦ some (get_type s) | _ ↦ none ];
  unmarshal_simple = λ d. elim d [ state_doc (simple f) ↦ some f | _ ↦ none ];
  unmarshal_action = λ d. elim d [
    | state_doc (action_state f expect entry exit activity) ↦
        some (f, expect, entry, exit, activity)
    | _ ↦ none
  ];
  unmarshal_composite = λ d. elim d [
    | state_doc (composite (composite_state f entry exit initial subs ts h)) ↦ some (
      record {
        fields = f;
        entry_actions = entry;
        exit_actions = exit;
        initial_substate = initial;
        sub_transitions = ts;
        history = h;
      },
      docs subs,
    )
    | _ ↦ none
  ];
  unmarshal_workflow = λ d. elim d [
    | workflow_doc (workflow f ss ts cs) ↦
        some (record { fields = f; transitions = ts; common_transitions = cs }, docs ss)
    | _ ↦ none
  ];
  marshal_state = λ s. some (state_doc s);
  marshal_workflow = λ def. some (workflow_doc def);
}

states_in_pos : (s : State) → 0 < states_in s
unfolding states_in
states_in_pos (simple f) = omega arith
states_in_pos (action_state f expect entry exit activity) = omega arith
states_in_pos (composite (composite_state f entry exit initial subs ts h)) = omega arith

docs_shorter :
    (subs : States) (raw : Doc) → Memᴰ raw (docs subs) → trees.size raw < suc (all_in subs)
unfolding all_in
docs_shorter nil raw m = elim m [ ]
docs_shorter (cons s ss) raw (Memᴰ.head e) = rw e (omega arith)
docs_shorter (cons s ss) raw (Memᴰ.tail m) = omega (arith, docs_shorter ss raw m, states_in_pos s)

abbrev raws_of : Option (CompositeAlias × List Doc) → List Doc
raws_of none = []
raws_of (some (a, raws)) = raws

trees_shorter :
    (b raw : Doc) (a : CompositeAlias) (raws : List Doc)
    → trees.unmarshal_composite b ≡ some (a, raws)
    → Memᴰ raw raws
    → trees.size raw < trees.size b
unfolding states_in
trees_shorter (state_doc (composite (composite_state f entry exit initial subs ts h))) raw a raws e
      m =
    docs_shorter subs raw (subst (Memᴰ raw) (sym (ap raws_of e)) m)
trees_shorter (state_doc (simple f)) raw a raws e m = cc
trees_shorter (state_doc (action_state f expect entry exit activity)) raw a raws e m = cc
trees_shorter (workflow_doc def) raw a raws e m = cc
trees_shorter (alone d) raw a raws e m = cc
trees_shorter (inside d sub) raw a raws e m = cc

trees-Nested : Nested trees
trees-Nested = record { shorter = trees_shorter }

docs-Encodes : (ss : States) → Encodes trees ss (docs ss)
docs-Encodes nil = tt
docs-Encodes (cons s ss) = (refl, docs-Encodes ss)

abbrev then_read : {A B : Type 0} → (A → Option B) → Option A → Option B
then_read f none = none
then_read f (some a) = f a

trees_faithful : Faithful trees
trees_faithful = record {
  nested = trees-Nested;
  typed = λ s b m. ap (then_read trees.peek) (sym m);
  simple_read = λ f b m. ap (then_read trees.unmarshal_simple) (sym m);
  action_read =
      λ f expect entry exit activity b plain m. ap (then_read trees.unmarshal_action) (sym m);
  composite_read = λ f entry exit initial subs ts h b plain m.
      (docs subs, ap (then_read trees.unmarshal_composite) (sym m), docs-Encodes subs);
  workflow_read = λ f ss ts cs b plain m.
      (docs ss, ap (then_read trees.unmarshal_workflow) (sym m), docs-Encodes ss);
}

abbrev envelopes : EnvelopeCodec Doc
envelopes = record {
  marshal_envelope = λ e. elim e.state [
    | none ↦ none
    | some d ↦ elim e.substate [ none ↦ some (alone d) | some sub ↦ some (inside d sub) ]
  ];
  unmarshal_envelope = λ b. elim b [
    | state_doc s ↦ some (record { state = none; substate = none })
    | workflow_doc def ↦ none
    | alone d ↦ some (record { state = some d; substate = none })
    | inside d sub ↦ some (record { state = some d; substate = some sub })
  ];
}

envelopes_read :
    (d : Doc) (sub : Option Doc) (b : Doc)
    → envelopes.marshal_envelope (record { state = some d; substate = sub }) ≡ some b
    → envelopes.unmarshal_envelope b ≡ some (record { state = some d; substate = sub })
envelopes_read d none b m = ap (then_read envelopes.unmarshal_envelope) (sym m)
envelopes_read d (some sub) b m = ap (then_read envelopes.unmarshal_envelope) (sym m)

envelopes_back : ReadsBack envelopes
envelopes_back = record { read = envelopes_read }

-- A composite with one substate.
abbrev inner : State
inner = simple (named "packing")

abbrev outer_fields : StateFields
outer_fields = record (named "shipping") { type = "CompositeState" }

abbrev outer : State
outer = composite (
    composite_state outer_fields nil_actions nil_actions "packing" (cons inner nil) nil_transitions
      HistoryKind.no_history)

inner-IsTyped : IsTyped inner
inner-IsTyped = IsTyped.simple_typed (named "packing") (inl refl)

outer-IsTyped : IsTyped outer
outer-IsTyped =
    IsTyped.composite_typed outer_fields nil_actions nil_actions "packing" (cons inner nil)
      nil_transitions HistoryKind.no_history refl (tt, tt, tt, tt)
      (AllTyped.one_more inner nil inner-IsTyped AllTyped.none_left)

decode_workflow-marshal_example :
    decode_workflow trees
      (workflow_doc (workflow order (cons outer nil) nil_transitions nil_common))
    ≡ some (workflow order (cons outer nil) nil_transitions nil_common)
decode_workflow-marshal_example =
    decode_workflow-marshal trees trees_faithful order (cons outer nil) nil_transitions nil_common
      (workflow_doc (workflow order (cons outer nil) nil_transitions nil_common))
      (AllTyped.one_more outer nil outer-IsTyped AllTyped.none_left) (tt, tt, tt) refl

abbrev packing : Cell
packing = record { state = some outer; substate = some inner }

abbrev stored : Source Doc
stored = text (inside (state_doc outer) (state_doc inner))

packing-IsStored : IsStored (value trees envelopes packing) stored
unfolding value
packing-IsStored = refl

scan-value_example :
    scan trees envelopes stored (record { state = some inner; substate = none }) ≡ (none, packing)
scan-value_example =
    scan-value trees envelopes trees_faithful envelopes_back
      (record { state = some inner; substate = none }) packing stored (outer-IsTyped, inner-IsTyped)
      packing-IsStored
