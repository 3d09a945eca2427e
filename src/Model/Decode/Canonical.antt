-- ===== src/Model/Decode/Canonical.antt =====
-- The enumerations read what they print, in any case of letters.
use text.Mathlib.TextEquality.{eq_iff}
use brokr.Common.{
  String, ◌==◌, Option, none, some, List, [], ◌∷◌, ◌≡◌, ◌↔◌, refl, ap, sym, ◌∙◌, arith, Bool-cases,
  inl, inr,
}
use brokr.Model.Kinds.{
  TriggerType, trigger_name, TransitionKind, kind_name, ActionType, action_type_name, GuardOp,
  op_name,
}
use brokr.Model.Decode.{
  constant, triggers, transition_kinds, action_types, guard_ops, unmarshal_trigger, unmarshal_kind,
  unmarshal_action_type, unmarshal_op,
}

abbrev or_else : {A : Type 0} → A → Option A → A
or_else a none = a
or_else a (some b) = b

constant-name :
    {A : Type 0} (name : A → String) (as' : List A) (s : String) {a : A}
    → constant name as' s ≡ some a
    → s ≡ name a
unfolding constant
constant-name name [] s {a} = λ e. ground arith
constant-name name (b ∷ bs) s {a} = elim (Bool-cases (name b == s)) [
  | inl h ↦ rw h λ e. sym ((eq_iff (name b) s).0 h) ∙ ap (λ o. name (or_else b o)) e
  | inr h ↦ rw h (constant-name name bs s)
]

-- A string is read as the constant exactly if its upper case is what the constant stands for.
abbrev pub IsCanonical :
    {A : Type 0} → (String → String) → (A → String) → (String → Option A) → Type 0
IsCanonical {A} to_upper name unmarshal =
    (raw : String) (a : A) → (unmarshal raw ≡ some a) ↔ (to_upper raw ≡ name a)

found_trigger : (t : TriggerType) → constant trigger_name triggers (trigger_name t) ≡ some t
unfolding constant trigger_name
found_trigger TriggerType.unset = refl
found_trigger TriggerType.automatic = refl
found_trigger TriggerType.user = refl
found_trigger TriggerType.system = refl

found_kind : (k : TransitionKind) → constant kind_name transition_kinds (kind_name k) ≡ some k
unfolding constant kind_name
found_kind TransitionKind.unset = refl
found_kind TransitionKind.external = refl
found_kind TransitionKind.internal = refl
found_kind TransitionKind.fork = refl
found_kind TransitionKind.join = refl

found_action_type :
    (t : ActionType) → constant action_type_name action_types (action_type_name t) ≡ some t
unfolding constant action_type_name
found_action_type ActionType.unset = refl
found_action_type ActionType.http_request = refl
found_action_type ActionType.set_context_map = refl
found_action_type ActionType.create_child_workflow = refl

found_op : (op : GuardOp) → constant op_name guard_ops (op_name op) ≡ some op
unfolding constant op_name
found_op GuardOp.unset = refl
found_op GuardOp.eq = refl
found_op GuardOp.neq = refl
found_op GuardOp.gt = refl
found_op GuardOp.gte = refl
found_op GuardOp.lt = refl
found_op GuardOp.lte = refl
found_op GuardOp.exists = refl
found_op GuardOp.not_exists = refl

canonical :
    {A : Type 0} (to_upper : String → String) (name : A → String) (as' : List A)
    → ((a : A) → constant name as' (name a) ≡ some a)
    → IsCanonical to_upper name (λ raw. constant name as' (to_upper raw))
canonical to_upper name as' found raw a =
    (constant-name name as' (to_upper raw), λ e. ap (constant name as') e ∙ found a)

-- Each of the four decoders reads a string as a constant exactly if the upper case of the string is the
-- one that the constant stands for.
pub unmarshal-IsCanonical :
    (to_upper : String → String)
    → IsCanonical to_upper trigger_name (unmarshal_trigger to_upper)
      × IsCanonical to_upper kind_name (unmarshal_kind to_upper)
      × IsCanonical to_upper action_type_name (unmarshal_action_type to_upper)
      × IsCanonical to_upper op_name (unmarshal_op to_upper)
unfolding unmarshal_trigger unmarshal_kind unmarshal_action_type unmarshal_op
unmarshal-IsCanonical to_upper = (
  canonical to_upper trigger_name triggers found_trigger,
  canonical to_upper kind_name transition_kinds found_kind,
  canonical to_upper action_type_name action_types found_action_type,
  canonical to_upper op_name guard_ops found_op,
)
