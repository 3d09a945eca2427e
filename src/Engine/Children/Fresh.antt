-- ===== src/Engine/Children/Fresh.antt =====
-- The row of a new instance.
use mathlib.Core.List.{Memᴰ}
use brokr.Common.{ℕ, String, Option, List, [], ◌∷◌, ◌≡◌, refl, subst}
use brokr.Model.Workflow.{Workflow, State}
use brokr.Engine.Instance.{workflow_states}
use brokr.Engine.Instance.WellFormed.{IsWellFormed}
use brokr.Engine.Position.{resolve_initial_position}
use brokr.Engine.Position.Known.{resolve_initial_position-IsPosition}
use brokr.Engine.Children.{first_state, new_row}
use brokr.Engine.Effects.{ok}
use brokr.Engine.Effects.Returns.{ok-injective}

first_state-Memᴰ : (ss : List State) {s : State} → first_state ss ≡ ok s → Memᴰ s ss
unfolding first_state
first_state-Memᴰ [] h = cc
first_state-Memᴰ (x ∷ ss) h = subst (λ s. Memᴰ s (x ∷ ss)) (ok-injective h) (Memᴰ.head refl)

-- The row that NewWorkflowInstance and createChildWorkflowInstance start from is well formed.
pub new_row-IsWellFormed :
    (id : String) (parent : Option String) (generation : String) (def : Workflow) (time : ℕ)
    {first s : State} {sub : Option State}
    → first_state (workflow_states def) ≡ ok first
    → resolve_initial_position first ≡ ok (s, sub)
    → IsWellFormed (new_row id parent generation def s sub time)
unfolding new_row
new_row-IsWellFormed id parent generation def time {first} {s} {sub} known position = record {
  positioned =
      resolve_initial_position-IsPosition def first (s, sub) (first_state-Memᴰ _ known) position;
  trailed = (refl, refl, (refl, refl));
}
