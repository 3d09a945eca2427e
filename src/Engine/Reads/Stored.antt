-- ===== src/Engine/Reads/Stored.antt =====
-- The other entry points, on a database all of whose rows are well formed.
use brokr.Common.{String, Option, none, some}
use brokr.Model.Workflow.{Workflow}
use brokr.Engine.Instance.WellFormed.{IsWellFormed}
use brokr.Engine.Effects.{Host, Process}
use brokr.Engine.Effects.Keeps.{Keeps, Keeps-bind, Keeps-bind_known, Keeps-pure, Keeps-raise}
use brokr.Engine.Event.Stored.{new_workflow_instance-Keeps}
use brokr.Engine.Storage.{Storage, AllWellFormed}
use brokr.Engine.Storage.Kept.{tried, read_known, written, create_child-Keeps}
use brokr.Engine.Reads.{
  get_workflow_instance_raw, get_workflow_instance, get_possible_events, instance_of,
  new_workflow_instance_by_name, create_child, get_child_workflow_instances,
  withdraw_child_workflow_instance,
}

module _ {F X : Type 0} {host : Host F X} (storage : Storage host) where
  abbrev WellFormed : Process X → Type 0
  WellFormed = AllWellFormed storage

  instance_of-Keeps :
      (name : String) (found : Option Workflow) → Keeps WellFormed (instance_of host name found)
  unfolding instance_of
  instance_of-Keeps name none = Keeps-raise _
  instance_of-Keeps name (some def) = new_workflow_instance-Keeps storage def

  pub by_name-Keeps : (name : String) → Keeps WellFormed (new_workflow_instance_by_name host name)
  unfolding new_workflow_instance_by_name
  by_name-Keeps name =
      Keeps-bind _ _ (tried storage _ (storage.first_definition name)) (instance_of-Keeps name)

  pub child-Keeps : (id : String) (def : Workflow) → Keeps WellFormed (create_child host id def)
  unfolding create_child
  child-Keeps id def = create_child-Keeps storage id def ""

  -- A child that is withdrawn keeps its position and its journey.
  pub withdraw-Keeps :
      (parent_id child_id : String)
      → Keeps WellFormed (withdraw_child_workflow_instance host parent_id child_id)
  unfolding withdraw_child_workflow_instance
  withdraw-Keeps parent_id child_id =
      Keeps-bind_known IsWellFormed _ _
        (read_known storage _ (storage.first_child child_id parent_id)
          (storage.read_child child_id parent_id))
        λ child good.
          written storage _ _ (storage.delete_instance child)
            (record { positioned = good.positioned; trailed = good.trailed })

  module _ (id : String) where
    pub row-Keeps : Keeps WellFormed (get_workflow_instance_raw host id)
    unfolding get_workflow_instance_raw
    row-Keeps = tried storage _ (storage.first_instance id)

    pub definition-Keeps : Keeps WellFormed (get_workflow_instance host id)
    unfolding get_workflow_instance
    definition-Keeps =
        Keeps-bind _ _ (tried storage _ (storage.first_instance id)) λ wf. Keeps-pure _

    pub events-Keeps : Keeps WellFormed (get_possible_events host id)
    unfolding get_possible_events
    events-Keeps = Keeps-bind _ _ (tried storage _ (storage.first_instance id)) λ wf. Keeps-pure _

    pub children-Keeps : Keeps WellFormed (get_child_workflow_instances host id)
    unfolding get_child_workflow_instances
    children-Keeps =
        Keeps-bind _ _ (tried storage _ (storage.find_children id)) λ rows. Keeps-pure _
