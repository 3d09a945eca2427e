-- ===== src/Engine/Chain/Kept.antt =====
-- What a chain of completions leaves alone in the process.
use brokr.Common.{ℕ, zero, suc, String, Bool, StrMap, inl, inr, Option-cases, ◌||◌, false}
use brokr.Model.Workflow.{Transition}
use brokr.Engine.Instance.{WorkflowInstance}
use brokr.Engine.Match.{find_automatic_transition}
use brokr.Engine.Transition.{apply_transition}
use brokr.Engine.Effects.{Host, Process}
use brokr.Engine.Effects.Keeps.{Keeps, Keeps-bind, Keeps-pure, Keeps-raise}
use brokr.Engine.Chain.{max_automatic_hops, chain_from, run_automatic_chain}

module _ {F X : Type 0} (host : Host F X) {I : Process X → Type 0} (id : String)
    (apply : (wf : WorkflowInstance) (t : Transition) (context : StrMap)
      → Keeps I (apply_transition host id wf t context)) where
  chain_from-Keeps :
      (hops : ℕ) (wf : WorkflowInstance) (context : StrMap) (moved : Bool)
      → Keeps I (chain_from host hops id wf context moved)
  unfolding chain_from
  chain_from-Keeps zero wf context moved = Keeps-raise _
  chain_from-Keeps (suc hops) wf context moved =
      elim (Option-cases (find_automatic_transition host.floats wf context)) [
        | inl e ↦ rw (e, chain_from) (Keeps-pure _)
        | inr (t, e) ↦
            rw (e, chain_from)
              (Keeps-bind _ _ (apply wf t context)
                λ r. chain_from-Keeps hops r.0 r.1 (moved || r.2))
      ]

  pub run_automatic_chain-Keeps :
      (wf : WorkflowInstance) (context : StrMap) → Keeps I (run_automatic_chain host id wf context)
  unfolding run_automatic_chain
  run_automatic_chain-Keeps wf context = chain_from-Keeps max_automatic_hops wf context false
