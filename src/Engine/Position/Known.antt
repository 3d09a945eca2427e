-- ===== src/Engine/Position/Known.antt =====
-- Where a transition or a new instance arrives is a position of the definition.
use mathlib.Core.List.{Memᴰ}
use brokr.Common.{
  FirstOf-Memᴰ, String, Option, none, some, List, StrMap, ◌≡◌, refl, subst, first-FirstOf,
}
use brokr.Model.State.{as_composite}
use brokr.Model.Composite.{substates, find_substate, initial_substate}
use brokr.Model.Workflow.{Workflow, State, CompositeState, Transition}
use brokr.Engine.Instance.{StateContainer, workflow_states}
use brokr.Engine.Instance.WellFormed.{Inhabits, IsPosition}
use brokr.Engine.Match.{find_state_by_id}
use brokr.Engine.Effects.{Error, ok}
use brokr.Engine.Effects.Returns.{ok-injective}
use brokr.Model.Transition.{fields}
use brokr.Engine.Position.{
  arrive, enter, enter_target, start_in, resolve_target, resolve_initial_position, entry_substate,
}

pub find_substate-Memᴰ :
    (c : CompositeState) (id : String) {s : State}
    → find_substate c id ≡ some s
    → Memᴰ s (substates c)
unfolding find_substate
find_substate-Memᴰ c id h = (FirstOf-Memᴰ _ (first-FirstOf _ (substates c) h)).0

find_state_by_id-Memᴰ :
    (ss : List State) (id : String) {s : State} → find_state_by_id ss id ≡ some s → Memᴰ s ss
unfolding find_state_by_id
find_state_by_id-Memᴰ ss id h = (FirstOf-Memᴰ _ (first-FirstOf _ ss h)).0

-- A position that is returned has the given state, with a substate that is right for it.
abbrev In : State → Option CompositeState → State × Option State → Type 0
In s comp r = (r.0 ≡ s) × Inhabits comp r.1

module _ (s : State) where
  arrive-In :
      (e : Error) (comp : CompositeState) (id : String) (found : Option State)
      → find_substate comp id ≡ found
      → (r : State × Option State) → arrive s e found ≡ ok r
      → In s (some comp) r
  unfolding arrive
  arrive-In e comp id none f r h = cc
  arrive-In e comp id (some x) f r h =
      subst (In s (some comp)) (ok-injective h) (refl, find_substate-Memᴰ comp id f)

  enter-In :
      (t : Transition) (memory : StrMap) (comp : Option CompositeState) (r : State × Option State)
      → enter s t memory comp ≡ ok r
      → In s comp r
  unfolding enter
  enter-In t memory none r h = subst (In s none) (ok-injective h) (refl, tt)
  enter-In t memory (some comp) r h = arrive-In _ comp (entry_substate comp t memory) _ refl r h

  start_in-In :
      (comp : Option CompositeState) (r : State × Option State)
      → start_in s comp ≡ ok r
      → In s comp r
  unfolding start_in
  start_in-In none r h = subst (In s none) (ok-injective h) (refl, tt)
  start_in-In (some comp) r h = arrive-In _ comp (initial_substate comp) _ refl r h

abbrev container : State × Option State → StateContainer
container r = record { state = r.0; substate = r.1 }

In-IsPosition :
    (def : Workflow) {s : State}
    → Memᴰ s (workflow_states def)
    → (r : State × Option State) → In s (as_composite s) r
    → IsPosition def (container r)
In-IsPosition def {s} m r h = record { state_known = rw (h.0) m; substate_known = rw (h.0) h.1 }

enter_target-IsPosition :
    (def : Workflow) (t : Transition) (memory : StrMap) (found : Option State)
    → find_state_by_id (workflow_states def) (fields t).target ≡ found
    → (r : State × Option State) → enter_target def t memory found ≡ ok r
    → IsPosition def (container r)
unfolding enter_target
enter_target-IsPosition def t memory none f r h = cc
enter_target-IsPosition def t memory (some s) f r h =
    In-IsPosition def (find_state_by_id-Memᴰ _ _ f) r (enter-In s t memory (as_composite s) r h)

-- A target that is resolved is a position of the definition.
pub resolve_target-IsPosition :
    (def : Workflow) (t : Transition) (memory : StrMap) (r : State × Option State)
    → resolve_target def t memory ≡ ok r
    → IsPosition def (record { state = r.0; substate = r.1 })
unfolding resolve_target
resolve_target-IsPosition def t memory r h = enter_target-IsPosition def t memory _ refl r h

-- Where a new instance starts, from a state of the definition, is a position of the definition.
pub resolve_initial_position-IsPosition :
    (def : Workflow) (s : State) (r : State × Option State)
    → Memᴰ s (workflow_states def)
    → resolve_initial_position s ≡ ok r
    → IsPosition def (record { state = r.0; substate = r.1 })
unfolding resolve_initial_position
resolve_initial_position-IsPosition def s r m h =
    In-IsPosition def m r (start_in-In s (as_composite s) r h)
