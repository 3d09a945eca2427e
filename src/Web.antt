-- ===== src/Web.antt =====
-- web/controller.go and the routes of brokr.go: what a request is answered with. Bodies are values that
-- say what is written as JSON. The two ways into the dispatcher are an interface, and draupnir's part
-- (parameters, queries, BindJSON) is done: a request holds what it yields.
pub mod Documented
pub mod Safe
pub mod Stream
pub mod Stored
pub mod System
use brokr.Common.{
  ℕ, String, Bool, true, false, Option, none, some, List, [], ◌∷◌, ◌==◌, ◌<>◌, StrMap,
  if◌then◌else◌,
}
use brokr.Model.Workflow.{Workflow}
use brokr.Engine.Instance.{WorkflowInstance}
use brokr.Engine.Effects.{
  Host, Error, definition_not_found, index_out_of_range, Result, ok, err, Process, Exec,
}
use brokr.Engine.Reads.{
  ChildInstance, get_workflow_instance_raw, get_workflow_instance, get_possible_events,
  new_workflow_instance_by_name, create_child, get_child_workflow_instances,
  withdraw_child_workflow_instance,
}
use brokr.View.Data.{VisualizationData, get_visualization_data}

-- engine.Dispatch and engine.DispatchAsync
pub record Dispatching (X : Type 0) : Type 0 where
  pub dispatch : String → String → Exec X String
  pub dispatch_async : String → String → Exec X (Unit {0})

pub record Request : Type 0 where
  pub id : String
  pub child_id : String
  pub event : String
  pub async : Bool
  -- the field `name` of a dto.CreateInstanceRequest, and a model.Workflow; `none` where BindJSON fails
  pub name : Option String
  pub definition : Option Workflow

pub data Body : Type 0 where
  error_of : Error → Body
  invalid_json : Body
  name_required : Body
  created : String → Body
  definition_of : Workflow → Body
  accepted : String → String → Body
  new_state : String → Body
  events : List String → Body
  context_map : StrMap → Body
  children : List ChildInstance → Body
  withdrawn : String → Body
  visualization : VisualizationData → Body
  visualizer_html : Body
  -- the handler, or the goroutine that it waits for, has panicked: it makes no response
  panicked : Body

pub record Response : Type 0 where
  pub status : ℕ
  pub body : Body

abbrev pub reply : ℕ → Body → Response
reply status body = record { status = status; body = body }

abbrev pub Handler : Type 0 → Type 0
Handler X = Process X → Response × Process X

-- if err != nil { ctx.JSON(status, errResp(err.Error())); return }
abbrev pub or_error : {A : Type 0} → ℕ → (A → Response) → Result A → Response
or_error status f (ok a) = f a
or_error status f (err index_out_of_range) = reply 0 panicked
or_error status f (err e) = reply status (error_of e)

module _ {X : Type 0} where
  unfoldable pub answer : {A : Type 0} → Exec X A → (Result A → Response) → Handler X
  answer m f p = let (r, p') = m p in (f r, p')

  unfoldable pub refuse : Response → Handler X
  refuse r p = (r, p)

-- What CreateBlueprint makes of the result of NewWorkflowInstanceByName.
creation : Result String → Response
creation (ok id) = reply 201 (created id)
creation (err (definition_not_found name)) = reply 404 (error_of (definition_not_found name))
creation (err index_out_of_range) = reply 0 panicked
creation (err e) = reply 500 (error_of e)

module _ {F X : Type 0} (host : Host F X) (service : Dispatching X) where
  -- CreateBlueprint
  create_blueprint : Option String → Handler X
  unfolding answer refuse creation
  create_blueprint none = refuse (reply 400 invalid_json)
  create_blueprint (some name) =
      if name == ""
      then refuse (reply 400 name_required)
      else answer (new_workflow_instance_by_name host name) creation

  -- GetBlueprint
  get_blueprint : String → Handler X
  unfolding answer
  get_blueprint id =
      answer (get_workflow_instance host id) (or_error 404 (λ def. reply 200 (definition_of def)))

  -- SendEventToInstance
  send_event_to_instance : String → String → Bool → Handler X
  unfolding answer
  send_event_to_instance id event true =
      answer (service.dispatch_async id event) (or_error 500 (λ u. reply 202 (accepted id event)))
  send_event_to_instance id event false =
      answer (service.dispatch id event) (or_error 500 (λ state. reply 200 (new_state state)))

  -- GetPossibleEvents, GetContext, GetChildren, GetVisualizationData
  possible_events : String → Handler X
  unfolding answer
  possible_events id =
      answer (get_possible_events host id) (or_error 500 (λ es. reply 200 (events es)))

  get_context : String → Handler X
  unfolding answer
  get_context id =
      answer (get_workflow_instance_raw host id)
        (or_error 404 (λ wf. reply 200 (context_map wf.context_map)))

  get_children : String → Handler X
  unfolding answer
  get_children parent_id =
      answer (get_child_workflow_instances host parent_id)
        (or_error 500 (λ cs. reply 200 (children cs)))

  visualization_data : String → Handler X
  unfolding answer
  visualization_data id =
      answer (get_visualization_data host id) (or_error 404 (λ v. reply 200 (visualization v)))

  -- CreateChildBlueprint
  create_child_blueprint : String → Option Workflow → Handler X
  unfolding answer refuse
  create_child_blueprint parent_id none = refuse (reply 400 invalid_json)
  create_child_blueprint parent_id (some def) =
      answer (create_child host parent_id def) (or_error 500 (λ id. reply 201 (created id)))

  -- WithdrawChild
  withdraw_child : String → String → Handler X
  unfolding answer
  withdraw_child parent_id child_id =
      answer (withdraw_child_workflow_instance host parent_id child_id)
        (or_error 500 (λ u. reply 200 (withdrawn child_id)))

  -- GetVisualizerPage
  visualizer_page : Handler X
  unfolding refuse
  visualizer_page = refuse (reply 200 visualizer_html)

-- The handlers that answer with one response.
pub data Endpoint : Type 0 where
  blueprint_created blueprint_read event_sent events_listed context_read child_created : Endpoint
  children_listed child_withdrawn data_read page_read : Endpoint

pub data Method : Type 0 where
  post get delete : Method

pub data Target : Type 0 where
  handler : Endpoint → Target
  -- StreamWorkflowInstanceEvents, over SSE, which is a GET
  event_stream : Target

pub record Route : Type 0 where
  pub method : Method
  pub path : String
  pub target : Target

-- RegisterRoutes
unfoldable pub routes : String → List Route
routes p =
    record {
      method = Method.post;
      path = p <> "/workflows";
      target = handler Endpoint.blueprint_created;
    }
    ∷ record {
      method = Method.get;
      path = p <> "/workflows/:id";
      target = handler Endpoint.blueprint_read;
    }
    ∷ record {
      method = Method.post;
      path = p <> "/workflows/:id/events";
      target = handler Endpoint.event_sent;
    }
    ∷ record {
      method = Method.get;
      path = p <> "/workflows/:id/possible-events";
      target = handler Endpoint.events_listed;
    }
    ∷ record {
      method = Method.get;
      path = p <> "/workflows/:id/context";
      target = handler Endpoint.context_read;
    }
    ∷ record {
      method = Method.get;
      path = p <> "/workflows/:id/visualization-data";
      target = handler Endpoint.data_read;
    }
    ∷ record {
      method = Method.get;
      path = p <> "/workflows/:id/visualizer";
      target = handler Endpoint.page_read;
    }
    ∷ record {
      method = Method.get;
      path = p <> "/workflows/:id/events/stream";
      target = event_stream;
    }
    ∷ record {
      method = Method.post;
      path = p <> "/workflows/:id/children";
      target = handler Endpoint.child_created;
    }
    ∷ record {
      method = Method.get;
      path = p <> "/workflows/:id/children";
      target = handler Endpoint.children_listed;
    }
    ∷ record {
      method = Method.delete;
      path = p <> "/workflows/:id/children/:childId";
      target = handler Endpoint.child_withdrawn;
    }
    ∷ []

module _ {F X : Type 0} (host : Host F X) (service : Dispatching X) where
  -- The handler of an endpoint, on the parts of the request that it reads.
  unfoldable pub serve : Endpoint → Request → Handler X
  unfolding create_blueprint get_blueprint send_event_to_instance possible_events get_context
      get_children visualization_data create_child_blueprint withdraw_child visualizer_page
  serve Endpoint.blueprint_created rq = create_blueprint host service rq.name
  serve Endpoint.blueprint_read rq = get_blueprint host service rq.id
  serve Endpoint.event_sent rq = send_event_to_instance host service rq.id rq.event rq.async
  serve Endpoint.events_listed rq = possible_events host service rq.id
  serve Endpoint.context_read rq = get_context host service rq.id
  serve Endpoint.child_created rq = create_child_blueprint host service rq.id rq.definition
  serve Endpoint.children_listed rq = get_children host service rq.id
  serve Endpoint.child_withdrawn rq = withdraw_child host service rq.id rq.child_id
  serve Endpoint.data_read rq = visualization_data host service rq.id
  serve Endpoint.page_read rq = visualizer_page host service
