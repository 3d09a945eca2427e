-- ===== src/Model/Json/Plain.antt =====
-- The parts of a definition that encoding/json alone reads and writes: actions without a definition of
-- their own, which Workflow.UnmarshalJSON would decode, and with one variable at most, since the keys of
-- a map are written in sorted order.
use brokr.Common.{◌≤◌, length, ◌≢◌}
use brokr.Model.Kinds.{HistoryKind, WorkflowKind}
use brokr.Model.Workflow.{
  WorkflowRef, null, ref, Transition, transition, Transitions, nil_transitions, cons_transitions,
  common_transition, CommonTransitions, nil_common, cons_common, Action, action, Actions,
  nil_actions, cons_actions, fork_target, ForkTargets, nil_targets, cons_targets,
}

abbrev IsNull : WorkflowRef → Type 0
IsNull null = Unit
IsNull (ref def) = ⊥

abbrev IsPlain : Action → Type 0
IsPlain (action f child) = (length f.variables ≤ 1) × IsNull child

abbrev pub ArePlain : Actions → Type 0
ArePlain nil_actions = Unit
ArePlain (cons_actions a as') = IsPlain a × ArePlain as'

abbrev ArePlainTargets : ForkTargets → Type 0
ArePlainTargets nil_targets = Unit
ArePlainTargets (cons_targets (fork_target label child) ts) = IsNull child × ArePlainTargets ts

abbrev IsPlainTransition : Transition → Type 0
IsPlainTransition (transition f entry targets) = ArePlain entry × ArePlainTargets targets

abbrev pub ArePlainTransitions : Transitions → Type 0
ArePlainTransitions nil_transitions = Unit
ArePlainTransitions (cons_transitions t ts) = IsPlainTransition t × ArePlainTransitions ts

abbrev pub ArePlainCommon : CommonTransitions → Type 0
ArePlainCommon nil_common = Unit
ArePlainCommon (cons_common (common_transition f entry) cs) = ArePlain entry × ArePlainCommon cs

-- A text is none of the constants.
abbrev pub IsCanonicalHistory : HistoryKind → Type 0
IsCanonicalHistory (HistoryKind.other_text text) =
    (text ≢ "") × (text ≢ "shallow") × (text ≢ "deep")
IsCanonicalHistory _ = Unit

abbrev pub IsCanonicalKind : WorkflowKind → Type 0
IsCanonicalKind (WorkflowKind.other_text text) = (text ≢ "") × (text ≢ "USER")
IsCanonicalKind _ = Unit
