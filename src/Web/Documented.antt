-- ===== src/Web/Documented.antt =====
-- The status codes against the tables "HTTP API reference" and "Error responses" of README.md.
use brokr.Common.{ℕ, String, true, false, ◌⊎◌, none, some, ◌≡◌}
use brokr.Model.Workflow.{Workflow}
use brokr.Engine.Effects.{Host, Error, definition_not_found, index_out_of_range, err, Process}
use brokr.Engine.Reads.{
  new_workflow_instance_by_name, create_child, get_workflow_instance, get_possible_events,
  get_workflow_instance_raw, get_child_workflow_instances, withdraw_child_workflow_instance,
}
use brokr.Web.{
  Dispatching, Request, Body, error_of, invalid_json, name_required, created, definition_of,
  accepted, new_state, events, context_map, children, withdrawn, Response, Endpoint,
}

-- The table of errors.
abbrev pub error_status : Endpoint → Error → ℕ
error_status Endpoint.blueprint_created (definition_not_found name) = 404
error_status Endpoint.blueprint_read e = 404
error_status Endpoint.context_read e = 404
error_status _ _ = 500

-- Both tables: which body an endpoint may answer a request with, and its status.
abbrev pub Promised : Endpoint → Request → Response → Type 0
Promised endpoint rq r = Row endpoint r.body
  where
    Row : Endpoint → Body → Type 0
    Row e (error_of error) = r.status ≡ error_status e error
    Row Endpoint.blueprint_created (created id) = r.status ≡ 201
    Row Endpoint.blueprint_created invalid_json = (r.status ≡ 400) × (rq.name ≡ none)
    Row Endpoint.blueprint_created name_required = (r.status ≡ 400) × (rq.name ≡ some "")
    Row Endpoint.blueprint_read (definition_of def) = r.status ≡ 200
    Row Endpoint.event_sent (new_state state) = (r.status ≡ 200) × (rq.async ≡ false)
    Row Endpoint.event_sent (accepted id event) =
        (r.status ≡ 202) × (rq.async ≡ true) × (id ≡ rq.id) × (event ≡ rq.event)
    Row Endpoint.events_listed (events es) = r.status ≡ 200
    Row Endpoint.context_read (context_map m) = r.status ≡ 200
    Row Endpoint.child_created (created id) = r.status ≡ 201
    Row Endpoint.child_created invalid_json = (r.status ≡ 400) × (rq.definition ≡ none)
    Row Endpoint.children_listed (children cs) = r.status ≡ 200
    Row Endpoint.child_withdrawn (withdrawn id) = (r.status ≡ 200) × (id ≡ rq.child_id)
    Row _ _ = ⊥

module _ {F X : Type 0} (host : Host F X) (service : Dispatching X) (rq : Request)
    (p : Process X) where
  -- What the handler of an endpoint asks of the engine has panicked.
  abbrev pub Panics : Endpoint → Type 0
  Panics Endpoint.blueprint_created =
      (name : String) × (rq.name ≡ some name)
      × ((new_workflow_instance_by_name host name p).0 ≡ err index_out_of_range)
  Panics Endpoint.blueprint_read = (get_workflow_instance host rq.id p).0 ≡ err index_out_of_range
  Panics Endpoint.event_sent =
      ((service.dispatch_async rq.id rq.event p).0 ≡ err index_out_of_range)
      ⊎ ((service.dispatch rq.id rq.event p).0 ≡ err index_out_of_range)
  Panics Endpoint.events_listed = (get_possible_events host rq.id p).0 ≡ err index_out_of_range
  Panics Endpoint.context_read = (get_workflow_instance_raw host rq.id p).0 ≡ err index_out_of_range
  Panics Endpoint.child_created =
      (def : Workflow) × (rq.definition ≡ some def)
      × ((create_child host rq.id def p).0 ≡ err index_out_of_range)
  Panics Endpoint.children_listed =
      (get_child_workflow_instances host rq.id p).0 ≡ err index_out_of_range
  Panics Endpoint.child_withdrawn =
      (withdraw_child_workflow_instance host rq.id rq.child_id p).0 ≡ err index_out_of_range
  Panics Endpoint.data_read = ⊥
  Panics Endpoint.page_read = ⊥

  -- The response is promised, or there is none because of a panic.
  abbrev pub Kept : Endpoint → Response → Type 0
  Kept endpoint r = Promised endpoint rq r ⊎ Panics endpoint
