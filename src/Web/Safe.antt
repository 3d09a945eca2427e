-- ===== src/Web/Safe.antt =====
-- A request by GET changes nothing.
use mathlib.Core.List.{Memᴰ}
use brokr.Common.{All, subst, sym, ◌∙◌, String, List, [], ◌∷◌, ◌≡◌, refl, ap}
use brokr.Engine.Effects.{Host, Result, Process, try}
use brokr.Engine.Effects.Keeps.{Keeps, Keeps-bind, Keeps-pure}
use brokr.Engine.Reads.{
  get_workflow_instance_raw, get_workflow_instance, get_possible_events,
  get_child_workflow_instances,
}
use brokr.View.Data.{get_visualization_data}
use brokr.Web.{
  Dispatching, Request, refuse, get_blueprint, possible_events, get_context, get_children,
  visualization_data, visualizer_page, Endpoint, Method, Target, handler, event_stream, Route,
  routes, serve,
}

abbrev at_world : {X : Type 0} → Process X → X → Process X
at_world p x = record p { world = x }

-- A read of the database leaves it as it was.
abbrev pub IsRead : {X A : Type 0} → (X → Result A × X) → Type 0
IsRead {X} f = (x : X) → (f x).1 ≡ x

module _ {X A : Type 0} (q : Process X) where
  Keeps-read : (f : X → Result A × X) → IsRead f → Keeps (λ p. p ≡ q) (try f)
  unfolding try
  Keeps-read f h = record { at = λ p s. ap (at_world p) (h p.world) ∙ s }

ruleset read_rules = (Keeps-read, Keeps-bind, Keeps-pure)

All-Memᴰ : {A : Type 0} (P : A → Type 0) (as' : List A) {a : A} → All P as' → Memᴰ a as' → P a
All-Memᴰ P [] h m = elim m [ ]
All-Memᴰ P (b ∷ bs) h (Memᴰ.head e) = subst P (sym e) h.0
All-Memᴰ P (b ∷ bs) h (Memᴰ.tail m) = All-Memᴰ P bs h.1 m

module _ {F X : Type 0} (host : Host F X) (service : Dispatching X) where
  abbrev IsSafe : Endpoint → Type 0
  IsSafe e = (rq : Request) (q : Process X) → (serve host service e rq q).1 ≡ q

  -- What a route leads to leaves the process as it was, if it is no event stream.
  abbrev pub IsSafeTarget : Target → Type 0
  IsSafeTarget (handler e) = IsSafe e
  IsSafeTarget event_stream = Unit

  abbrev IsSafeGet : Route → Type 0
  IsSafeGet r = r.method ≡ Method.get → IsSafeTarget r.target

  module _
      -- a SELECT changes nothing
      (row_read : (id : String) → IsRead (host.first_instance id))
      (children_read : (id : String) → IsRead (host.find_children id)) where
    module _ (q : Process X) (id : String) where
      Keeps-row : Keeps (λ p. p ≡ q) (get_workflow_instance_raw host id)
      unfolding get_workflow_instance_raw
      Keeps-row = search (read_rules, row_read)

      Keeps-definition : Keeps (λ p. p ≡ q) (get_workflow_instance host id)
      unfolding get_workflow_instance
      Keeps-definition = search (read_rules, row_read)

      Keeps-events : Keeps (λ p. p ≡ q) (get_possible_events host id)
      unfolding get_possible_events
      Keeps-events = search (read_rules, row_read)

      Keeps-children : Keeps (λ p. p ≡ q) (get_child_workflow_instances host id)
      unfolding get_child_workflow_instances
      Keeps-children = search (read_rules, children_read)

      Keeps-data : Keeps (λ p. p ≡ q) (get_visualization_data host id)
      unfolding get_visualization_data
      Keeps-data = search (read_rules, Keeps-row, Keeps-children)

    blueprint-IsSafe : IsSafe Endpoint.blueprint_read
    unfolding serve get_blueprint
    blueprint-IsSafe rq q = (Keeps-definition q rq.id).at q refl

    events-IsSafe : IsSafe Endpoint.events_listed
    unfolding serve possible_events
    events-IsSafe rq q = (Keeps-events q rq.id).at q refl

    context-IsSafe : IsSafe Endpoint.context_read
    unfolding serve get_context
    context-IsSafe rq q = (Keeps-row q rq.id).at q refl

    children-IsSafe : IsSafe Endpoint.children_listed
    unfolding serve get_children
    children-IsSafe rq q = (Keeps-children q rq.id).at q refl

    data-IsSafe : IsSafe Endpoint.data_read
    unfolding serve visualization_data
    data-IsSafe rq q = (Keeps-data q rq.id).at q refl

    page-IsSafe : IsSafe Endpoint.page_read
    unfolding serve visualizer_page refuse
    page-IsSafe rq q = refl

    each_safe : (prefix : String) → All IsSafeGet (routes prefix)
    unfolding routes
    each_safe prefix = (
      λ e. cc,
      (
        λ e. blueprint-IsSafe,
        (
          λ e. cc,
          (
            λ e. events-IsSafe,
            (
              λ e. context-IsSafe,
              (
                λ e. data-IsSafe,
                (λ e. page-IsSafe, (λ e. tt, (λ e. cc, (λ e. children-IsSafe, (λ e. cc, tt))))),
              ),
            ),
          ),
        ),
      ),
    )

    -- Where reading an instance, and reading the children of one, leave the database as it was, a request
    -- to a route whose method is GET, the event stream aside, leaves the whole process as it was, under
    -- any prefix and whatever the request holds: the database, the timers and do-activities, the jobs,
    -- what was published and dispatched, and the hooks.
    pub routes-IsSafeTarget :
        (prefix : String) (r : Route)
        → Memᴰ r (routes prefix)
        → r.method ≡ Method.get
        → IsSafeTarget r.target
    routes-IsSafeTarget prefix r m = All-Memᴰ IsSafeGet (routes prefix) (each_safe prefix) m
