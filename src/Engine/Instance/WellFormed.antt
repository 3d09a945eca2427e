-- ===== src/Engine/Instance/WellFormed.antt =====
-- Well-formed instances: the position belongs to the definition, and the journey leads to it.
use mathlib.Core.List.{Memᴰ}
use brokr.Common.{String, Option, none, some, List, [], ◌∷◌, ◌++◌, ◌≡◌, refl, sym, ◌∙◌}
use brokr.Model.State.{get_id, as_composite}
use brokr.Model.Composite.{substates}
use brokr.Model.Workflow.{Workflow, State, CompositeState}
use brokr.Engine.Instance.{
  StateContainer, substate_id, JourneyEntry, WorkflowInstance, workflow_states,
}

-- A composite state has an active substate of its own, and no other state has one.
abbrev pub Inhabits : Option CompositeState → Option State → Type 0
Inhabits none none = Unit
Inhabits (some comp) (some sub) = Memᴰ sub (substates comp)
Inhabits _ _ = ⊥

pub record IsPosition (def : Workflow) (c : StateContainer) : Type 0 where
  pub state_known : Memᴰ c.state (workflow_states def)
  pub substate_known : Inhabits (as_composite c.state) c.substate

-- The journey leads from one position to another, each entry from where the last one arrived.
abbrev pub Leads : String → String → List JourneyEntry → String → String → Type 0
Leads s u [] s' u' = (s ≡ s') × (u ≡ u')
Leads s u (e ∷ es) s' u' =
    (e.from_state ≡ s) × (e.from_substate ≡ u) × Leads e.to_state e.to_substate es s' u'

pub Leads-append :
    (s u : String) (es : List JourneyEntry) (e : JourneyEntry)
    → Leads s u es e.from_state e.from_substate
    → Leads s u (es ++ e ∷ []) e.to_state e.to_substate
Leads-append s u [] e (p, q) = (sym p, sym q, (refl, refl))
Leads-append s u (f ∷ es) e (p, q, h) = (p, q, Leads-append f.to_state f.to_substate es e h)

pub record IsWellFormed (wf : WorkflowInstance) : Type 0 where
  pub positioned : IsPosition wf.workflow_definition wf.current_state
  -- the first entry comes from nowhere
  pub trailed :
      Leads "" "" wf.journey (get_id wf.current_state.state) (substate_id wf.current_state.substate)

-- What no transition changes.
pub record SameInstance (a b : WorkflowInstance) : Type 0 where
  pub id : b.id ≡ a.id
  pub parent_id : b.parent_id ≡ a.parent_id
  pub workflow_definition : b.workflow_definition ≡ a.workflow_definition
  pub fork_generation : b.fork_generation ≡ a.fork_generation
  pub version : b.version ≡ a.version
  pub deleted : b.deleted ≡ a.deleted

pub SameInstance-refl : (a : WorkflowInstance) → SameInstance a a
SameInstance-refl a = record {
  id = refl;
  parent_id = refl;
  workflow_definition = refl;
  fork_generation = refl;
  version = refl;
  deleted = refl;
}

pub SameInstance-trans :
    {a b c : WorkflowInstance} → SameInstance a b → SameInstance b c → SameInstance a c
SameInstance-trans p q = record {
  id = q.id ∙ p.id;
  parent_id = q.parent_id ∙ p.parent_id;
  workflow_definition = q.workflow_definition ∙ p.workflow_definition;
  fork_generation = q.fork_generation ∙ p.fork_generation;
  version = q.version ∙ p.version;
  deleted = q.deleted ∙ p.deleted;
}
