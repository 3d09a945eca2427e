-- ===== src/Web/Stored.antt =====
-- Requests, on a database all of whose rows are well formed.
use brokr.Common.{String, Option, none, some, Bool-cases, inl, inr, ◌==◌, ◌≡◌, refl}
use brokr.Model.Workflow.{Workflow}
use brokr.Engine.Effects.{Host, Process}
use brokr.Engine.Effects.Keeps.{Keeps, Keeps-bind, Keeps-pure}
use brokr.Engine.Reads.Stored.{
  by_name-Keeps, child-Keeps, withdraw-Keeps, row-Keeps, definition-Keeps, events-Keeps,
  children-Keeps,
}
use brokr.Engine.Storage.{Storage, AllWellFormed}
use brokr.View.Data.{get_visualization_data}
use brokr.Web.{
  Dispatching, Request, refuse, create_blueprint, get_blueprint, possible_events, get_context,
  get_children, visualization_data, create_child_blueprint, withdraw_child, visualizer_page,
  Endpoint, serve,
}

module _ {F X : Type 0} {host : Host F X} (storage : Storage host) (service : Dispatching X) where
  data-Keeps : (id : String) → Keeps (AllWellFormed storage) (get_visualization_data host id)
  unfolding get_visualization_data
  data-Keeps id =
      Keeps-bind _ _ (row-Keeps storage id)
        λ wf. Keeps-bind _ _ (children-Keeps storage id) λ children. Keeps-pure _

  module _ (rq : Request) (p : Process X) (h : AllWellFormed storage p) where
    create_blueprint-AllWellFormed :
        (name : Option String) → AllWellFormed storage (create_blueprint host service name p).1
    unfolding create_blueprint refuse
    create_blueprint-AllWellFormed none = h
    create_blueprint-AllWellFormed (some name) = elim (Bool-cases (name == "")) [
      | inl e ↦ rw e h
      | inr e ↦ rw e ((by_name-Keeps storage name).at p h)
    ]

    create_child_blueprint-AllWellFormed :
        (def : Option Workflow)
        → AllWellFormed storage (create_child_blueprint host service rq.id def p).1
    unfolding create_child_blueprint refuse
    create_child_blueprint-AllWellFormed none = h
    create_child_blueprint-AllWellFormed (some def) = (child-Keeps storage rq.id def).at p h

    -- Every endpoint keeps all rows well formed, if the one that sends events does.
    pub handled-AllWellFormed :
        (endpoint : Endpoint)
        → (endpoint ≡ Endpoint.event_sent
            → AllWellFormed storage (serve host service Endpoint.event_sent rq p).1)
        → AllWellFormed storage (serve host service endpoint rq p).1
    unfolding serve get_blueprint possible_events get_context get_children visualization_data
        withdraw_child visualizer_page refuse
    handled-AllWellFormed Endpoint.blueprint_created s = create_blueprint-AllWellFormed rq.name
    handled-AllWellFormed Endpoint.blueprint_read s = (definition-Keeps storage rq.id).at p h
    handled-AllWellFormed Endpoint.event_sent s = s refl
    handled-AllWellFormed Endpoint.events_listed s = (events-Keeps storage rq.id).at p h
    handled-AllWellFormed Endpoint.context_read s = (row-Keeps storage rq.id).at p h
    handled-AllWellFormed Endpoint.child_created s =
        create_child_blueprint-AllWellFormed rq.definition
    handled-AllWellFormed Endpoint.children_listed s = (children-Keeps storage rq.id).at p h
    handled-AllWellFormed Endpoint.child_withdrawn s =
        (withdraw-Keeps storage rq.id rq.child_id).at p h
    handled-AllWellFormed Endpoint.data_read s = (data-Keeps rq.id).at p h
    handled-AllWellFormed Endpoint.page_read s = h
