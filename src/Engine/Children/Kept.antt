-- ===== src/Engine/Children/Kept.antt =====
-- What the creation of a child leaves alone in the process.
use brokr.Common.{String, StrMap}
use brokr.Model.Workflow.{Workflow}
use brokr.Engine.Instance.{WorkflowInstance}
use brokr.Engine.Activities.{arm_state_activities}
use brokr.Engine.Effects.{Host, Process, ask}
use brokr.Engine.Effects.Returns.{Returns}
use brokr.Engine.Effects.Keeps.{
  Keeps, IsLocal, Keeps-bind, Keeps-bind_returned, Keeps-try, Keeps-lift, Keeps-ask, Keeps-pure,
}
use brokr.Engine.Children.{create_child_workflow_instance}

-- `P` holds of the ids of new instances, and arming the activities of an instance with such an id
-- keeps `I`.
module _ {F X : Type 0} (host : Host F X) {I : Process X → Type 0} (P : String → Type 0)
    (l : IsLocal I) (fresh : Returns P (ask host.new_uuid))
    (arm : (id : String) (wf : WorkflowInstance) (context : StrMap)
      → P id
      → Keeps I (arm_state_activities host id wf context)) where
  pub create_child-Keeps :
      (parent_id : String) (def : Workflow) (generation : String)
      → Keeps I (create_child_workflow_instance host parent_id def generation)
  unfolding create_child_workflow_instance
  create_child-Keeps parent_id def generation = Keeps-bind _ _ (Keeps-try _ l) λ row.
      Keeps-bind _ _ (Keeps-lift _) λ parent. Keeps-bind _ _ (Keeps-lift _) λ first.
        Keeps-bind _ _ (Keeps-lift _) λ position.
          Keeps-bind_returned P _ _ (Keeps-ask _ l) fresh λ id new.
            Keeps-bind _ _ (Keeps-ask _ l) λ time.
              Keeps-bind _ _ (Keeps-try _ l)
                λ created. Keeps-bind _ _ (arm id _ _ new) λ armed. Keeps-pure id
