-- ===== src/Engine/Actions.antt =====
-- model/executions.go and model/statemachine.go: the actions of states and transitions.
pub mod Kept
use Prim.Native.Nat.{pred}
use brokr.Common.{
  ℕ, zero, suc, String, Bool, true, false, not, ◌==◌, ◌&&◌, ◌||◌, ◌<>◌, Option, none, some, List,
  [], ◌∷◌, StrMap, insert, lookup, if◌then◌else◌, ltb, replace_all, join_comma, length,
}
use brokr.Model.Kinds.{
  ActionType, unset, http_request, set_context_map, create_child_workflow, is_create_child,
}
use brokr.Model.Workflow.{Workflow, WorkflowRef, null, ref, ActionFields, Action, action}
use brokr.Engine.Children.{create_child_workflow_instance, create_child_workflow_instances_batch}
use brokr.Engine.Effects.{
  Host, Error, child_required, child_creation_not_wired, create_child_failed,
  create_children_failed, build_request_failed, http_failed, http_status, Result, ok, err,
  HttpRequest, HttpReply, not_built, failed, response, Job, Process, Exec, pure, raise, lift,
  wrap_error, ask, modify, inspect, ◌>>=◌, ◌>>◌,
}

-- One pass of the loop of interpolate for each entry, in the order of the range.
interpolate_entries : List (String × String) → String → String
interpolate_entries [] s = s
interpolate_entries ((k, v) ∷ entries) s =
    interpolate_entries entries (replace_all s ("${" <> k <> "}") v)

-- for k, v := range responseMap { ctxMap[k] = v }
unfoldable pub merge : StrMap → StrMap → StrMap
merge [] context = context
merge ((k, v) ∷ entries) context = merge entries (insert k v context)

child_of : WorkflowRef → Result Workflow
child_of null = err child_required
child_of (ref def) = ok def

-- The definitions of a run of create-child actions, from the first one on.
child_run : List Action → Result (List Workflow)
unfolding child_of
child_run [] = ok []
child_run (action f child ∷ rest) =
    let defs = child_run rest in
    if is_create_child f.type
    then elim (child_of child) [
      | err e ↦ err e
      | ok def ↦ elim defs [ err e ↦ err e | ok ds ↦ ok (def ∷ ds) ]
    ]
    else ok []

-- The ids of the children that were created, in the context.
last_id : String → List String → String
last_id id [] = id
last_id id (i ∷ ids) = last_id i ids

record_children : List String → StrMap → StrMap
unfolding last_id
record_children [] context = context
record_children (id ∷ ids) context =
    insert "childWorkflowIds" (join_comma (id ∷ ids))
      (insert "childWorkflowId" (last_id id ids) context)

is_success : ℕ → Bool
is_success status = not (ltb status 200) && ltb status 300

module _ {F X : Type 0} (host : Host F X) where
  unfoldable pub interpolate : String → StrMap → Exec X String
  unfolding interpolate_entries
  interpolate s context = do
    entries ← ask (host.range context)
    pure (interpolate_entries entries s)

  interpolate_values : List (String × String) → StrMap → Exec X StrMap
  unfolding interpolate
  interpolate_values [] context = pure []
  interpolate_values ((k, v) ∷ entries) context = do
    v' ← interpolate v context
    rest ← interpolate_values entries context
    pure ((k, v') ∷ rest)

  request_body : StrMap → StrMap → Exec X (Option StrMap)
  unfolding interpolate_values
  request_body [] context = pure none
  request_body (entry ∷ entries) context = do
    ranged ← ask (host.range (entry ∷ entries))
    body ← interpolate_values ranged context
    pure (some body)

  read_reply : ActionFields → String → StrMap → HttpReply → Exec X StrMap
  unfolding is_success
  read_reply a url context not_built = raise build_request_failed
  read_reply a url context failed = raise (http_failed a.method url)
  read_reply a url context (response status body) =
      if a.expect_response
      then (if is_success status
          then pure (elim body [ none ↦ context | some entries ↦ merge entries context ])
          else raise (http_status a.method url status))
      else pure context

  unfoldable pub execute_http_request_action : ActionFields → StrMap → String → Exec X StrMap
  unfolding request_body read_reply
  execute_http_request_action a context token = do
    url ← interpolate a.url context
    body ← request_body a.variables context
    let request : HttpRequest = record {
      method = a.method;
      url = url;
      body = body;
      authorization = if a.forward_token && not (token == "") then some token else none;
    }
    reply ← ask (host.send_http request)
    read_reply a url context reply

  set_entries : List (String × String) → StrMap → Exec X StrMap
  set_entries [] context = pure context
  set_entries ((k, v) ∷ entries) context = do
    v' ← interpolate v context
    set_entries entries (insert k v' context)

  unfoldable pub execute_set_context_map_action : ActionFields → StrMap → Exec X StrMap
  unfolding set_entries
  execute_set_context_map_action a context = do
    entries ← ask (host.range a.variables)
    set_entries entries context

  when_wired : {A : Type 0} → Exec X A → Bool → Exec X A
  when_wired m true = m
  when_wired m false = raise child_creation_not_wired

  unfoldable pub execute_create_child_action : WorkflowRef → StrMap → String → Exec X StrMap
  unfolding child_of wrap_error when_wired
  execute_create_child_action child context parent_id = do
    wired ← inspect (λ p. p.hooks_wired)
    def ← when_wired (lift (child_of child)) wired
    id ← wrap_error create_child_failed (create_child_workflow_instance host parent_id def "")
    pure (insert "childWorkflowId" id context)

  -- submitAsync
  unfoldable pub submit_async : Job → Exec X (Unit {0})
  unfolding modify
  submit_async job = modify (λ p. record p { jobs = job ∷ p.jobs })

  execute_http : ActionFields → StrMap → String → Bool → Exec X StrMap
  unfolding submit_async
  execute_http a context token true = execute_http_request_action a context token
  execute_http a context token false = do
    submit_async (record { action = a; snapshot = context; token = token })
    pure context

  execute_type : ActionType → ActionFields → WorkflowRef → String → StrMap → Exec X StrMap
  unfolding execute_http
  execute_type http_request a child token context = execute_http a context token a.expect_response
  execute_type set_context_map a child token context = execute_set_context_map_action a context
  execute_type create_child_workflow a child token context =
      execute_create_child_action child context token
  execute_type unset a child token context = pure context

  -- Action.Execute
  unfoldable pub execute : Action → String → StrMap → Exec X StrMap
  unfolding execute_type
  execute (action a child) token context = execute_type a.type a child token context

  -- The batch of a run of create-child actions.
  create_run : String → List Workflow → StrMap → Exec X StrMap
  unfolding when_wired wrap_error record_children
  create_run token defs context = do
    wired ← inspect (λ p. p.hooks_wired)
    ids ←
        when_wired
          (wrap_error create_children_failed
            (create_child_workflow_instances_batch host token defs ""))
          wired
    pure (record_children ids context)

  -- The loop of ExecuteActions from one action on; `skip` actions belong to a run that is done.
  execute_from : String → ℕ → List Action → StrMap → Exec X StrMap
  unfolding create_run child_run
  execute_from token skip [] context = pure context
  execute_from token (suc skip) (a ∷ rest) context = execute_from token skip rest context
  execute_from token zero (action f child ∷ rest) context =
      if is_create_child f.type
      then (do
        defs ← lift (child_run (action f child ∷ rest))
        context' ← create_run token defs context
        execute_from token (pred (length defs)) rest context')
      else (do
        context' ← execute (action f child) token context
        execute_from token zero rest context')

  -- ExecuteActions
  unfoldable pub execute_actions : String → StrMap → List Action → Exec X StrMap
  unfolding execute_from
  execute_actions token context as' = execute_from token zero as' context
