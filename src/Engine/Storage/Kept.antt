-- ===== src/Engine/Storage/Kept.antt =====
-- Calls of the database and the creation of children, where all rows are well formed.
use brokr.Common.{String, some, StrMap, ◌≡◌, ◌⊎◌, inl, inr, subst, sym}
use brokr.Model.Workflow.{Workflow}
use brokr.Engine.Instance.{WorkflowInstance, workflow_states}
use brokr.Engine.Instance.WellFormed.{IsWellFormed}
use brokr.Engine.Position.{resolve_initial_position}
use brokr.Engine.Activities.{arm_state_activities}
use brokr.Engine.Activities.Kept.{IsBackground, arm-Keeps}
use brokr.Engine.Children.{create_child_workflow_instance, first_state}
use brokr.Engine.Children.Fresh.{new_row-IsWellFormed}
use brokr.Engine.Effects.{Host, Result, Process, ok, ask, try}
use brokr.Engine.Effects.Returns.{Returns-lift}
use brokr.Engine.Effects.Keeps.{
  Keeps, KeptByCalls, Keeps-bind, Keeps-bind_returned, Keeps-lift, Keeps-pure,
}
use brokr.Engine.Storage.{Storage, AllWellFormed}

module _ {F X : Type 0} {host : Host F X} (storage : Storage host) where
  abbrev WellFormed : Process X → Type 0
  WellFormed = AllWellFormed storage

  module _ {A : Type 0} where
    -- A call that brings no row into the database.
    pub asked :
        (f : X → A × X)
        → ((x : X) (row : WorkflowInstance) → storage.held (f x).1 row → storage.held x row)
        → Keeps WellFormed (ask f)
    unfolding ask
    asked f back = record { at = λ p h row r. h row (back p.world row r) }

    pub tried :
        (f : X → Result A × X)
        → ((x : X) (row : WorkflowInstance) → storage.held (f x).1 row → storage.held x row)
        → Keeps WellFormed (try f)
    unfolding try
    tried f back = record { at = λ p h row r. h row (back p.world row r) }

    -- A call that writes a well-formed row.
    pub written :
        (f : X → Result A × X) (new : WorkflowInstance)
        → ((x : X) (row : WorkflowInstance)
            → storage.held (f x).1 row
            → storage.held x row ⊎ (row ≡ new))
        → IsWellFormed new
        → Keeps WellFormed (try f)
    unfolding try
    written f new back good = record {
      at = λ p h row r. elim (back p.world row r) [
        | inl before ↦ h row before
        | inr e ↦ subst IsWellFormed (sym e) good
      ];
    }

  -- Where a call reads a row, that row is well formed.
  pub read_known :
      (f : X → Result WorkflowInstance × X)
      → ((x : X) (row : WorkflowInstance) → storage.held (f x).1 row → storage.held x row)
      → ((x : X) (row : WorkflowInstance) → (f x).0 ≡ ok row → storage.held x row)
      → (p : Process X) → WellFormed p
      → WellFormed (try f p).1
        × ((row : WorkflowInstance) → (try f p).0 ≡ ok row → IsWellFormed row)
  unfolding try
  read_known f back read p h =
      (λ row r. h row (back p.world row r), λ row e. h row (read p.world row e))

  pub WellFormed-IsBackground : IsBackground WellFormed
  WellFormed-IsBackground = record { timers = λ p ts h. h; do_activities = λ p as' h. h }

  pub WellFormed-KeptByCalls : KeptByCalls host WellFormed
  WellFormed-KeptByCalls = record {
    now = asked _ storage.now;
    new_uuid = asked _ storage.new_uuid;
    range = λ m. asked _ (storage.range m);
    send_http = λ request. asked _ (storage.send_http request);
    jobs = λ p js h. h;
  }

  pub armed :
      (id : String) (wf : WorkflowInstance) (context : StrMap)
      → Keeps WellFormed (arm_state_activities host id wf context)
  armed = arm-Keeps host WellFormed-IsBackground

  pub create_child-Keeps :
      (parent_id : String) (def : Workflow) (generation : String)
      → Keeps WellFormed (create_child_workflow_instance host parent_id def generation)
  unfolding create_child_workflow_instance
  create_child-Keeps parent_id def generation =
      Keeps-bind _ _ (tried _ (storage.first_instance parent_id)) λ row.
        Keeps-bind _ _ (Keeps-lift _) λ parent.
          Keeps-bind_returned (λ first. first_state (workflow_states def) ≡ ok first) _ _
            (Keeps-lift _) (Returns-lift _ (λ a e. e))
            λ first known.
              Keeps-bind_returned (λ r. resolve_initial_position first ≡ ok r) _ _ (Keeps-lift _)
                (Returns-lift _ (λ a e. e))
                λ r position. Keeps-bind _ _ (asked _ storage.new_uuid) λ id.
                  Keeps-bind _ _ (asked _ storage.now) λ time.
                    let h =
                      new_row-IsWellFormed id (some parent) generation def time known position in
                    Keeps-bind _ _
                      (written _ _ (storage.create_instance _)
                        (record { positioned = h.positioned; trailed = h.trailed }))
                      λ created. Keeps-bind _ _ (armed id _ _) (λ started. Keeps-pure id)
