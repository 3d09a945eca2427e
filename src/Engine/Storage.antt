-- ===== src/Engine/Storage.antt =====
-- The database behind gorm as an interface: which rows it holds, and that no call brings a row into it
-- but the one that is written.
pub mod Kept
use brokr.Common.{String, StrMap, true, Option, ◌≡◌, ◌⊎◌}
use brokr.Engine.Instance.{WorkflowInstance}
use brokr.Engine.Instance.WellFormed.{IsWellFormed}
use brokr.Engine.Effects.{Host, HttpRequest, ok, Process}

-- `held x row`: in the world `x` the database has `row`, or would have it again after a rollback.
pub record Storage {F X : Type 0} (host : Host F X) : Type 1 where
  pub held : X → WorkflowInstance → Type 0
  -- what is read is held
  pub read :
      (id : String) (x : X) (row : WorkflowInstance)
      → (host.first_instance id x).0 ≡ ok row
      → held x row
  pub read_child :
      (id parent : String) (x : X) (row : WorkflowInstance)
      → (host.first_child id parent x).0 ≡ ok row
      → held x row
  -- what is held after a write was held before it, or is the row that is written
  pub create_instance :
      (new : WorkflowInstance) (x : X) (row : WorkflowInstance)
      → held (host.create_instance new x).1 row
      → held x row ⊎ (row ≡ new)
  pub save_instance :
      (new : WorkflowInstance) (x : X) (row : WorkflowInstance)
      → held (host.save_instance new x).1 row
      → held x row ⊎ (row ≡ new)
  pub delete_instance :
      (old : WorkflowInstance) (x : X) (row : WorkflowInstance)
      → held (host.delete_instance old x).1 row
      → held x row ⊎ (row ≡ record old { deleted = true })
  -- what is held after any other call was held before it
  pub now : (x : X) (row : WorkflowInstance) → held (host.now x).1 row → held x row
  pub new_uuid : (x : X) (row : WorkflowInstance) → held (host.new_uuid x).1 row → held x row
  pub range :
      (m : StrMap) (x : X) (row : WorkflowInstance) → held (host.range m x).1 row → held x row
  pub send_http :
      (request : HttpRequest) (x : X) (row : WorkflowInstance)
      → held (host.send_http request x).1 row
      → held x row
  pub first_instance :
      (id : String) (x : X) (row : WorkflowInstance)
      → held (host.first_instance id x).1 row
      → held x row
  pub count_incomplete :
      (id : String) (generation : Option String) (x : X) (row : WorkflowInstance)
      → held (host.count_incomplete id generation x).1 row
      → held x row
  pub find_children :
      (id : String) (x : X) (row : WorkflowInstance)
      → held (host.find_children id x).1 row
      → held x row
  pub first_child :
      (id parent : String) (x : X) (row : WorkflowInstance)
      → held (host.first_child id parent x).1 row
      → held x row
  pub first_definition :
      (name : String) (x : X) (row : WorkflowInstance)
      → held (host.first_definition name x).1 row
      → held x row
  pub begin : (x : X) (row : WorkflowInstance) → held (host.begin x).1 row → held x row
  pub commit : (x : X) (row : WorkflowInstance) → held (host.commit x).1 row → held x row
  pub rollback : (x : X) (row : WorkflowInstance) → held (host.rollback x) row → held x row

-- Every row that the database holds is well formed.
abbrev pub AllWellFormed : {F X : Type 0} {host : Host F X} → Storage host → Process X → Type 0
AllWellFormed storage p = (row : WorkflowInstance) → storage.held p.world row → IsWellFormed row
