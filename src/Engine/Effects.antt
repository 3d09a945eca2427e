-- ===== src/Engine/Effects.antt =====
-- What the engine shares with the rest of the process and with the world: errors, the timers and
-- do-activities of engine/timers.go and engine/doactivity.go, the event bus, the pool of
-- model/asyncpool.go, and the outside world, which the parameter Host reaches.
pub mod Returns
pub mod Keeps
use brokr.Common.{ℕ, String, Bool, Option, none, some, List, StrMap}
use brokr.Model.Guard.{Floats}
use brokr.Model.Workflow.{Workflow, State, Action, ActionFields}
use brokr.Engine.Instance.{WorkflowInstance}

-- errors/errors.go and the errors that fmt.Errorf builds, with the values that they report.
pub data Error : Type 0 where
  no_transition : String → String → Error
  children_not_complete : String → String → Error
  definition_not_found : String → Error
  target_not_found : String → String → Error
  substate_not_found : String → String → Error
  initial_substate_not_found : String → String → Error
  fork_targets_empty : String → String → Error
  fork_target_missing : String → String → ℕ → Error
  fork_failed : Error → Error
  chain_exceeded : String → ℕ → Error
  child_required : Error
  child_creation_not_wired : Error
  -- no error but a panic, of States[0] in a definition without states; see `first_state`
  index_out_of_range : Error
  create_child_failed : Error → Error
  create_children_failed : Error → Error
  build_request_failed : Error
  http_failed : String → String → Error
  http_status : String → String → ℕ → Error
  -- an error of the database or of uuid.Parse
  outside : String → Error

pub data Result {ℓ} (A : Type ℓ) : Type ℓ where
  ok : A → Result A
  err : Error → Result A

pub record HttpRequest : Type 0 where
  pub method : String
  pub url : String
  pub body : Option StrMap
  pub authorization : Option String

-- What http.NewRequest and Client.Do come back with; a response has its status, and its body if that
-- decodes to a map of strings.
pub data HttpReply : Type 0 where
  not_built : HttpReply
  failed : HttpReply
  response : ℕ → Option StrMap → HttpReply

-- The world `X`: the clock, the uuid generator, the order in which Go ranges over a map, the network
-- and the database behind gorm. Each call answers and leaves another world.
pub record Host (F X : Type 0) : Type 0 where
  pub floats : Floats F
  pub now : X → ℕ × X
  pub new_uuid : X → String × X
  pub range : StrMap → X → List (String × String) × X
  pub send_http : HttpRequest → X → HttpReply × X
  pub parse_duration : String → Option ℕ
  pub parse_uuid : String → Result String
  -- First(&wf, "id = ?", id); soft-deleted rows are not found
  pub first_instance : String → X → Result WorkflowInstance × X
  pub create_instance : WorkflowInstance → X → Result (Unit {0}) × X
  -- the count of children of a parent with complete = false, in a generation if one is given
  pub count_incomplete : String → Option String → X → Result ℕ × X
  -- Find(&children, "parent_id = ?", parentId), and First of one child by both ids
  pub find_children : String → X → Result (List WorkflowInstance) × X
  pub first_child : String → String → X → Result WorkflowInstance × X
  -- Delete, which marks the row
  pub delete_instance : WorkflowInstance → X → Result (Unit {0}) × X
  -- First(&def, "name = ?", name), with `none` for gorm.ErrRecordNotFound
  pub first_definition : String → X → Result (Option Workflow) × X
  -- Create with ON CONFLICT (name) DO UPDATE
  pub upsert_definition : String → Workflow → X → Result (Unit {0}) × X
  -- Transaction: Begin, then Save in it, then Commit, or Rollback after an error
  pub begin : X → Result (Unit {0}) × X
  pub save_instance : WorkflowInstance → X → Result (Unit {0}) × X
  pub commit : X → Result (Unit {0}) × X
  pub rollback : X → X

-- dto.WorkflowTransitionEvent
pub record WorkflowTransitionEvent : Type 0 where
  pub workflow_instance_id : String
  pub event : String
  pub last_transition : String
  pub current_state : State
  pub substate : Option State

-- A pending timer: the delay and the event that it dispatches.
pub record Timer : Type 0 where
  pub delay : ℕ
  pub event : String

-- An HTTP action whose response nobody reads, with its copy of the context and the token.
pub record Job : Type 0 where
  pub action : ActionFields
  pub snapshot : StrMap
  pub token : String

pub record Process (X : Type 0) : Type 0 where
  pub world : X
  -- timerStops, by instance; the goroutine that a cancel function stops stands in its place
  pub timers : List (String × List Timer)
  -- doActivityStops, by instance, likewise
  pub do_activities : List (String × List Action)
  -- what was handed to the pool of model/asyncpool.go
  pub jobs : List Job
  pub published : List WorkflowTransitionEvent
  -- parents for which a goroutine runs attemptAutoJoin
  pub auto_joins : List String
  -- commands that DispatchAsync has put into a mailbox
  pub dispatched : List (String × String)
  -- whether engine.Start has set the hooks CreateChildWorkflowFunc and CreateChildWorkflowsFunc
  pub hooks_wired : Bool

-- A panic is no error: nothing wraps it, and of two concurrent calls it is what ends both.
unfoldable pub wrapped : (Error → Error) → Error → Error
wrapped f index_out_of_range = index_out_of_range
wrapped f e = f e

unfoldable pub paired : {A B : Type 0} → Result A → Result B → Result (A × B)
paired (ok a) (ok b) = ok (a, b)
paired (ok a) (err e) = err e
paired (err e) (ok b) = err e
paired (err e) (err index_out_of_range) = err index_out_of_range
paired (err e) (err _) = err e

-- Code that has effects and may fail. What was done before an error stays done.
abbrev pub Exec : Type 0 → Type 0 → Type 0
Exec X A = Process X → Result A × Process X

module _ {X A : Type 0} where
  unfoldable pub pure : A → Exec X A
  pure a p = (ok a, p)

  unfoldable pub raise : Error → Exec X A
  raise e p = (err e, p)

  -- A value or an error that is at hand.
  unfoldable pub lift : Result A → Exec X A
  lift r p = (r, p)

  -- fmt.Errorf("…: %w", err)
  unfoldable pub wrap_error : (Error → Error) → Exec X A → Exec X A
  wrap_error f m p = let (r, p') = m p in (elim r [ ok a ↦ ok a | err e ↦ err (wrapped f e) ], p')

  -- A call of the outside world that cannot fail, and one that can.
  unfoldable pub ask : (X → A × X) → Exec X A
  ask f p = let (a, x) = f p.world in (ok a, record p { world = x })

  unfoldable pub try : (X → Result A × X) → Exec X A
  try f p = let (r, x) = f p.world in (r, record p { world = x })

unfoldable pub inspect : {X A : Type 0} → (Process X → A) → Exec X A
inspect f p = (ok (f p), p)

unfoldable pub modify : {X : Type 0} → (Process X → Process X) → Exec X (Unit {0})
modify f p = (ok tt, f p)

module _ {X A B : Type 0} where
  unfoldable pub continue : Result A → (A → Exec X B) → Process X → Result B × Process X
  continue (ok a) f p = f a p
  continue (err e) f p = (err e, p)

  infixl 5 ◌>>=◌ ◌>>◌
  unfoldable pub ◌>>=◌ : Exec X A → (A → Exec X B) → Exec X B
  unfolding continue
  ◌>>=◌ m f p = continue (m p).0 f (m p).1

  -- Two concurrent calls, in one order: both run, and the first error is the one that is reported.
  unfoldable pub both : Exec X A → Exec X B → Exec X (A × B)
  both m n p = let (r, p₁) = m p in let (r', p₂) = n p₁ in (paired r r', p₂)

  abbrev pub ◌>>◌ : Exec X A → Exec X B → Exec X B
  m >> k = m >>= λ _. k
