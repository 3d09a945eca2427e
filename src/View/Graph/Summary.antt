-- ===== src/View/Graph/Summary.antt =====
-- dto/graph.go: what the visualizer says of an action and of a guard.
use Prim.Native.String.{compare}
use Prim.Native.Nat.{Ordering}
use brokr.Common.{
  String, ◌==◌, ◌<>◌, Option, none, some, List, [], ◌∷◌, StrMap, join_with, if◌then◌else◌,
}
use brokr.Model.Kinds.{
  ActionType, unset, http_request, set_context_map, create_child_workflow, action_type_name,
  op_name,
}
use brokr.Model.Workflow.{Guard, ActionFields, Action, action, WorkflowRef, null, ref}
use brokr.Engine.Instance.{workflow_fields}

pub record GraphActionSummary : Type 0 where
  pub type : String
  pub label : String

pub record GraphGuardSummary : Type 0 where
  pub key : String
  pub op : String
  pub value : String

unfoldable pub keys : StrMap → List String
keys [] = []
keys ((k, v) ∷ entries) = k ∷ keys entries

-- sort.Strings, in the order of the bytes.
unfoldable pub insert_sorted : String → List String → List String
insert_sorted s [] = s ∷ []
insert_sorted s (t ∷ ts) =
    let rest = insert_sorted s ts in
    elim (compare s t) [ Ordering.gt ↦ t ∷ rest | _ ↦ s ∷ (t ∷ ts) ]

unfoldable pub sort_strings : List String → List String
unfolding insert_sorted
sort_strings [] = []
sort_strings (s ∷ ss) = insert_sorted s (sort_strings ss)

-- a.ChildWorkflow != nil && a.ChildWorkflow.Id != ""
child_label : WorkflowRef → String
child_label null = "spawn child workflow"
child_label (ref def) =
    let id = (workflow_fields def).id in
    if id == "" then "spawn child workflow" else "spawn child: " <> id

label_of : ActionType → ActionFields → WorkflowRef → String
unfolding child_label sort_strings keys
label_of http_request a child = a.method <> " " <> a.url
label_of set_context_map a child = "set " <> join_with ", " (sort_strings (keys a.variables))
label_of create_child_workflow a child = child_label child
label_of unset a child = action_type_name unset

-- summarizeAction
unfoldable pub summarize_action : Action → GraphActionSummary
unfolding label_of
summarize_action (action a child) = record {
  type = action_type_name a.type;
  label = label_of a.type a child;
}

-- summarizeGuard
unfoldable pub summarize_guard : Option Guard → Option GraphGuardSummary
summarize_guard none = none
summarize_guard (some g) = some (record { key = g.key; op = op_name g.op; value = g.value })
