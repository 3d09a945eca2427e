-- ===== src/Engine/Chain.antt =====
-- engine/transitions.go: runAutomaticChain.
pub mod Settled
pub mod Kept
use brokr.Common.{ℕ, zero, suc, String, Bool, true, false, ◌||◌, Option, none, some, StrMap}
use brokr.Model.State.{get_id}
use brokr.Model.Workflow.{Transition}
use brokr.Engine.Instance.{WorkflowInstance}
use brokr.Engine.Match.{find_automatic_transition}
use brokr.Engine.Transition.{apply_transition}
use brokr.Engine.Effects.{Host, Error, chain_exceeded, Exec, pure, raise, ◌>>=◌}

abbrev pub max_automatic_hops : ℕ
max_automatic_hops = 100

module _ {F X : Type 0} (host : Host F X) where
  -- The loop with `hops` passes left: at none the chain is given up, before the search.
  unfoldable pub chain_from :
      ℕ → String → WorkflowInstance → StrMap → Bool → Exec X (WorkflowInstance × StrMap × Bool)
  chain_from zero id wf context moved =
      raise (chain_exceeded (get_id wf.current_state.state) max_automatic_hops)
  chain_from (suc hops) id wf context moved =
      elim (find_automatic_transition host.floats wf context) [
        | none ↦ pure (wf, context, moved)
        | some t ↦ do
          (wf', context', hop_moved) ← apply_transition host id wf t context
          chain_from hops id wf' context' (moved || hop_moved)
      ]

  unfoldable pub run_automatic_chain :
      String → WorkflowInstance → StrMap → Exec X (WorkflowInstance × StrMap × Bool)
  unfolding chain_from
  run_automatic_chain id wf context = chain_from max_automatic_hops id wf context false
