-- ===== src/Engine/Actions/Kept.antt =====
-- What actions leave alone. They reach the process by the outside world, by the jobs of the pool and
-- by the creation of children.
use brokr.Common.{ℕ, zero, suc, String, Bool, true, false, List, [], ◌∷◌, StrMap}
use brokr.Model.Kinds.{
  ActionType, unset, http_request, set_context_map, create_child_workflow, is_create_child,
}
use brokr.Model.Workflow.{Workflow, WorkflowRef, ActionFields, Action, action}
use brokr.Engine.Children.{create_child_workflow_instance, create_child_workflow_instances_batch}
use brokr.Engine.Effects.{Host, Process, Exec, Job, HttpReply, not_built, failed, response, modify}
use brokr.Engine.Effects.Keeps.{
  Keeps, KeptByCalls, keeps_rules, Keeps-bind, Keeps-if, Keeps-both, Keeps-pure,
}
use brokr.Engine.Actions.{
  interpolate, interpolate_values, request_body, read_reply, execute_http_request_action,
  set_entries, execute_set_context_map_action, when_wired, execute_create_child_action,
  submit_async, execute_http, execute_type, execute, create_run, execute_from, execute_actions,
}

module _ {F X : Type 0} (host : Host F X) {I : Process X → Type 0} (c : KeptByCalls host I)
    (child : (parent_id : String) (def : Workflow) (generation : String)
      → Keeps I (create_child_workflow_instance host parent_id def generation)) where
  pub batch-Keeps :
      (parent_id : String) (defs : List Workflow) (generation : String)
      → Keeps I (create_child_workflow_instances_batch host parent_id defs generation)
  unfolding create_child_workflow_instances_batch
  batch-Keeps parent_id [] generation = search keeps_rules
  batch-Keeps parent_id (def ∷ defs) generation =
      Keeps-bind _ _
        (Keeps-both _ _ (child parent_id def generation) (batch-Keeps parent_id defs generation))
        (λ ids. Keeps-pure _)

  interpolate-Keeps : (s : String) (context : StrMap) → Keeps I (interpolate host s context)
  unfolding interpolate
  interpolate-Keeps s context = search (keeps_rules, c.range)

  values-Keeps :
      (entries : List (String × String)) (context : StrMap)
      → Keeps I (interpolate_values host entries context)
  unfolding interpolate_values
  values-Keeps [] context = search keeps_rules
  values-Keeps ((k, v) ∷ entries) context =
      Keeps-bind _ _ (interpolate-Keeps v context)
        (λ v'. Keeps-bind _ _ (values-Keeps entries context) (λ rest. Keeps-pure _))

  body-Keeps : (variables context : StrMap) → Keeps I (request_body host variables context)
  unfolding request_body
  body-Keeps [] context = search keeps_rules
  body-Keeps (entry ∷ entries) context = search (keeps_rules, c.range, values-Keeps)

  reply-Keeps :
      (a : ActionFields) (url : String) (context : StrMap) (reply : HttpReply)
      → Keeps I (read_reply host a url context reply)
  unfolding read_reply
  reply-Keeps a url context not_built = search keeps_rules
  reply-Keeps a url context failed = search keeps_rules
  reply-Keeps a url context (response status body) = search keeps_rules

  http-Keeps :
      (a : ActionFields) (context : StrMap) (token : String)
      → Keeps I (execute_http_request_action host a context token)
  unfolding execute_http_request_action
  http-Keeps a context token =
      search (keeps_rules, c.send_http, interpolate-Keeps, body-Keeps, reply-Keeps) depth 8

  set-Keeps :
      (entries : List (String × String)) (context : StrMap)
      → Keeps I (set_entries host entries context)
  unfolding set_entries
  set-Keeps [] context = search keeps_rules
  set-Keeps ((k, v) ∷ entries) context =
      Keeps-bind _ _ (interpolate-Keeps v context) (λ v'. set-Keeps entries _)

  async-Keeps : (job : Job) → Keeps I (submit_async host job)
  unfolding submit_async modify
  async-Keeps job = record { at = λ p h. c.jobs p _ h }

  wired-Keeps :
      {A : Type 0} (m : Exec X A) (wired : Bool) → Keeps I m → Keeps I (when_wired host m wired)
  unfolding when_wired
  wired-Keeps m true h = h
  wired-Keeps m false h = search keeps_rules

  create-Keeps :
      (child_ref : WorkflowRef) (context : StrMap) (parent_id : String)
      → Keeps I (execute_create_child_action host child_ref context parent_id)
  unfolding execute_create_child_action
  create-Keeps child_ref context parent_id = search (keeps_rules, wired-Keeps, child) depth 8

  execute_http-Keeps :
      (a : ActionFields) (context : StrMap) (token : String) (expect : Bool)
      → Keeps I (execute_http host a context token expect)
  unfolding execute_http
  execute_http-Keeps a context token true = http-Keeps a context token
  execute_http-Keeps a context token false = search (keeps_rules, async-Keeps)

  type-Keeps :
      (type : ActionType) (a : ActionFields) (child_ref : WorkflowRef) (token : String)
      (context : StrMap)
      → Keeps I (execute_type host type a child_ref token context)
  unfolding execute_type execute_set_context_map_action
  type-Keeps http_request a child_ref token context = execute_http-Keeps a context token _
  type-Keeps set_context_map a child_ref token context = search (keeps_rules, c.range, set-Keeps)
  type-Keeps create_child_workflow a child_ref token context = create-Keeps child_ref context token
  type-Keeps unset a child_ref token context = search keeps_rules

  pub execute-Keeps :
      (a : Action) (token : String) (context : StrMap) → Keeps I (execute host a token context)
  unfolding execute
  execute-Keeps (action a child_ref) token context = type-Keeps a.type a child_ref token context

  run-Keeps :
      (token : String) (defs : List Workflow) (context : StrMap)
      → Keeps I (create_run host token defs context)
  unfolding create_run
  run-Keeps token defs context = search (keeps_rules, wired-Keeps, batch-Keeps) depth 8

  from-Keeps :
      (token : String) (skip : ℕ) (as' : List Action) (context : StrMap)
      → Keeps I (execute_from host token skip as' context)
  unfolding execute_from
  from-Keeps token skip [] context = search keeps_rules
  from-Keeps token (suc skip) (a ∷ rest) context = from-Keeps token skip rest context
  from-Keeps token zero (action f child_ref ∷ rest) context =
      Keeps-if (is_create_child f.type) _ _
        (Keeps-bind _ _ (search keeps_rules)
          (λ defs. Keeps-bind _ _ (run-Keeps token defs context) (λ c. from-Keeps token _ rest c)))
        (Keeps-bind _ _ (execute-Keeps (action f child_ref) token context)
          (λ c. from-Keeps token zero rest c))

  -- Actions keep what their parts keep, whether they return or fail.
  pub execute_actions-Keeps :
      (token : String) (context : StrMap) (as' : List Action)
      → Keeps I (execute_actions host token context as')
  unfolding execute_actions
  execute_actions-Keeps token context as' = from-Keeps token zero as' context
