-- ===== src/Model/Json/RoundTrip.antt =====
-- States and definitions are read as they were written.
use brokr.Common.{String, Bool, some, List, [], ◌∷◌, ◌≡◌, ◌⊎◌, inl, inr, refl, ap, ap₂, ◌∙◌}
use brokr.Model.Kinds.{HistoryKind}
use brokr.Model.State.{get_type}
use brokr.Model.Workflow.{
  StateFields, WorkflowFields, State, simple, action_state, composite, composite_state, States, nil,
  cons, Actions, Transitions, CommonTransitions, workflow,
}
use brokr.Model.Json.{
  Codec, composite_of, workflow_of, then_cons, decode_simple, decode_action, decode_composite,
  decode_all, decode_typed, decode_state, decode_definition, decode_workflow,
}
use brokr.Model.Json.Plain.{
  ArePlain, ArePlainTransitions, ArePlainCommon, IsCanonicalHistory, IsCanonicalKind,
}
use brokr.Model.Json.Fixpoint.{Nested, decode_state-unfolds}

mutual
  -- The type of a state, and of all its substates, names its struct, and the actions are plain.
  pub data IsTyped : State → Type 0 where
    simple_typed : (f : StateFields) → (f.type ≡ "SimpleState") ⊎ (f.type ≡ "") → IsTyped (simple f)
    action_typed :
        (f : StateFields) (expect : Bool) (entry exit activity : Actions)
        → f.type ≡ "ActionState"
        → ArePlain entry × ArePlain exit × ArePlain activity
        → IsTyped (action_state f expect entry exit activity)
    composite_typed :
        (f : StateFields) (entry exit : Actions) (initial : String) (subs : States)
        (ts : Transitions) (h : HistoryKind)
        → f.type ≡ "CompositeState"
        → ArePlain entry × ArePlain exit × ArePlainTransitions ts × IsCanonicalHistory h
        → AllTyped subs
        → IsTyped (composite (composite_state f entry exit initial subs ts h))

  pub data AllTyped : States → Type 0 where
    none_left : AllTyped nil
    one_more : (s : State) (ss : States) → IsTyped s → AllTyped ss → AllTyped (cons s ss)

module _ {B : Type 0} (codec : Codec B) where
  -- The raw messages are what the states are marshalled to, one for each.
  abbrev pub Encodes : States → List B → Type 0
  Encodes nil [] = Unit
  Encodes nil (raw ∷ raws) = ⊥
  Encodes (cons s ss) [] = ⊥
  Encodes (cons s ss) (raw ∷ raws) = (codec.marshal_state s ≡ some raw) × Encodes ss raws

  -- encoding/json reads what it has written, where no definition stands within an action and no map has
  -- more than one key: the fields of a struct as they were, and of a slice of states the raw message of
  -- each.
  pub record Faithful : Type 0 where
    pub nested : Nested codec
    pub typed :
        (s : State) (b : B) → codec.marshal_state s ≡ some b → codec.peek b ≡ some (get_type s)
    pub simple_read :
        (f : StateFields) (b : B)
        → codec.marshal_state (simple f) ≡ some b
        → codec.unmarshal_simple b ≡ some f
    pub action_read :
        (f : StateFields) (expect : Bool) (entry exit activity : Actions) (b : B)
        → ArePlain entry × ArePlain exit × ArePlain activity
        → codec.marshal_state (action_state f expect entry exit activity) ≡ some b
        → codec.unmarshal_action b ≡ some (f, expect, entry, exit, activity)
    pub composite_read :
        (f : StateFields) (entry exit : Actions) (initial : String) (subs : States)
        (ts : Transitions) (h : HistoryKind) (b : B)
        → ArePlain entry × ArePlain exit × ArePlainTransitions ts × IsCanonicalHistory h
        → codec.marshal_state (composite (composite_state f entry exit initial subs ts h)) ≡ some b
        → (raws : List B) × (codec.unmarshal_composite b
            ≡ some (
              record {
                fields = f;
                entry_actions = entry;
                exit_actions = exit;
                initial_substate = initial;
                sub_transitions = ts;
                history = h;
              },
              raws,
            ))
          × Encodes subs raws
    pub workflow_read :
        (f : WorkflowFields) (ss : States) (ts : Transitions) (cs : CommonTransitions) (b : B)
        → ArePlainTransitions ts × ArePlainCommon cs × IsCanonicalKind f.kind
        → codec.marshal_workflow (workflow f ss ts cs) ≡ some b
        → (raws : List B) × (codec.unmarshal_workflow b
            ≡ some (record { fields = f; transitions = ts; common_transitions = cs }, raws))
          × Encodes ss raws

module _ {B : Type 0} (codec : Codec B) (faithful : Faithful codec) where
  -- The branch of the switch that a type selects.
  typed_simple :
      (f : StateFields) (b : B) (type : String)
      → (type ≡ "SimpleState") ⊎ (type ≡ "")
      → codec.unmarshal_simple b ≡ some f
      → decode_typed codec (decode_state codec) (some type) b ≡ some (simple f)
  unfolding decode_typed decode_simple
  typed_simple f b type (inl t) r = rw (t, r) refl
  typed_simple f b type (inr t) r = rw (t, r) refl

  typed_action :
      (b : B) (type : String)
      → type ≡ "ActionState"
      → decode_typed codec (decode_state codec) (some type) b
        ≡ decode_action (codec.unmarshal_action b)
  unfolding decode_typed
  typed_action b type t = rw t refl

  typed_composite :
      (b : B) (type : String)
      → type ≡ "CompositeState"
      → decode_typed codec (decode_state codec) (some type) b
        ≡ decode_composite (decode_state codec) (codec.unmarshal_composite b)
  unfolding decode_typed
  typed_composite b type t = rw t refl

  decode_as :
      (s : State) (b : B)
      → codec.marshal_state s ≡ some b
      → decode_state codec b ≡ decode_typed codec (decode_state codec) (some (get_type s)) b
  decode_as s b m =
      decode_state-unfolds codec faithful.nested b
      ∙ ap (λ type. decode_typed codec (decode_state codec) type b) (faithful.typed s b m)

  mutual
    unfolding decode_action decode_composite decode_all composite_of then_cons

    decode_written :
        (s : State)
        → IsTyped s
        → (b : B) → codec.marshal_state s ≡ some b
        → decode_state codec b ≡ some s
    decode_written s (simple_typed f t) b m =
        decode_as (simple f) b m ∙ typed_simple f b f.type t (faithful.simple_read f b m)
    decode_written s (action_typed f expect entry exit activity t plain) b m =
        decode_as (action_state f expect entry exit activity) b m
        ∙ typed_action b f.type t
        ∙ ap decode_action (faithful.action_read f expect entry exit activity b plain m)
    decode_written s (composite_typed f entry exit initial subs ts h t plain all) b m =
        let (raws, read, encodes) =
          faithful.composite_read f entry exit initial subs ts h b plain m in
        decode_as (composite (composite_state f entry exit initial subs ts h)) b m
        ∙ typed_composite b f.type t
        ∙ ap (decode_composite (decode_state codec)) read
        ∙ ap (composite_of _) (decode_all_written subs all raws encodes)

    decode_all_written :
        (ss : States)
        → AllTyped ss
        → (raws : List B) → Encodes codec ss raws
        → decode_all (decode_state codec) raws ≡ some ss
    decode_all_written ss none_left [] e = refl
    decode_all_written ss none_left (raw ∷ raws) e = absurd e
    decode_all_written ss (one_more s rest t all) [] e = absurd e
    decode_all_written ss (one_more s rest t all) (raw ∷ raws) e =
        ap₂ then_cons (decode_written s t raw e.0) (decode_all_written rest all raws e.1)

  -- Where encoding/json reads what it has written, a state is decoded from what it is marshalled to, at
  -- any depth of composites, if the type of each state names its struct and its actions are plain.
  pub decode_state-marshal :
      (s : State) (b : B)
      → IsTyped s
      → codec.marshal_state s ≡ some b
      → decode_state codec b ≡ some s
  decode_state-marshal s b t m = decode_written s t b m

  -- Where encoding/json reads what it has written (into the structs that the code passes to it, with
  -- each state as a raw message shorter than the document), Workflow.UnmarshalJSON reads a definition
  -- back from what it is marshalled to, at any depth of composites, if every state has the type field of
  -- its Go type, no action and no fork target holds the definition of a child, no action has more than
  -- one variable, and a kind or a history that is one of the constants stands as that constant.
  pub decode_workflow-marshal :
      (f : WorkflowFields) (ss : States) (ts : Transitions) (cs : CommonTransitions) (b : B)
      → AllTyped ss
      → ArePlainTransitions ts × ArePlainCommon cs × IsCanonicalKind f.kind
      → codec.marshal_workflow (workflow f ss ts cs) ≡ some b
      → decode_workflow codec b ≡ some (workflow f ss ts cs)
  unfolding decode_workflow decode_definition
  decode_workflow-marshal f ss ts cs b all plain m =
      let (raws, read, encodes) = faithful.workflow_read f ss ts cs b plain m in
      ap (decode_definition codec) read
      ∙ ap (workflow_of _) (decode_all_written ss all raws encodes)
