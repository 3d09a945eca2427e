-- ===== src/Engine/Chain/Settled.antt =====
-- Where runAutomaticChain ends: at a well-formed row from which no completion fires, after fewer
-- than max_automatic_hops transitions.
use brokr.Common.{
  ℕ, zero, suc, ◌+◌, ◌<◌, String, Bool, none, StrMap, ◌≡◌, arith, length, length-append,
  Option-cases, [], ◌∷◌, ◌||◌, ap, inl, inr, false,
}
use brokr.Engine.Instance.{WorkflowInstance}
use brokr.Engine.Instance.WellFormed.{
  IsWellFormed, SameInstance, SameInstance-refl, SameInstance-trans,
}
use brokr.Engine.Match.{find_automatic_transition}
use brokr.Engine.Transition.Invariant.{Stepped, apply-Returns}
use brokr.Engine.Effects.{Host, Process, ok}
use brokr.Engine.Effects.Returns.{
  Returns, Returns-pure, Returns-raise, Returns-bind, Returns-weaken,
}
use brokr.Engine.Chain.{max_automatic_hops, chain_from, run_automatic_chain}

module _ {F X : Type 0} (host : Host F X) where
  pub record Settled (hops : ℕ) (a : WorkflowInstance) (r : WorkflowInstance × StrMap × Bool)
      : Type 0 where
    pub same : SameInstance a r.0
    pub well_formed : IsWellFormed r.0
    pub at_rest : find_automatic_transition host.floats r.0 r.1 ≡ none
    pub bounded : length r.0.journey < length a.journey + hops

  step-Settled :
      {hops : ℕ} {a b : WorkflowInstance} {r : WorkflowInstance × StrMap × Bool}
      → Stepped a b
      → Settled hops b r
      → Settled (suc hops) a r
  step-Settled {hops} {a} {b} {r} s h = record {
    same = SameInstance-trans s.same h.same;
    well_formed = h.well_formed;
    at_rest = h.at_rest;
    bounded = omega (arith, h.bounded, ap length s.journey, length-append a.journey (s.entry ∷ []));
  }

  chain_from-Settled :
      (hops : ℕ) (id : String) (wf : WorkflowInstance) (context : StrMap) (moved : Bool)
      → IsWellFormed wf
      → Returns (Settled hops wf) (chain_from host hops id wf context moved)
  unfolding chain_from
  chain_from-Settled zero id wf context moved h = Returns-raise _
  chain_from-Settled (suc hops) id wf context moved h =
      elim (Option-cases (find_automatic_transition host.floats wf context)) [
        | inl e ↦
            rw (e, chain_from)
              (Returns-pure _ (record {
                same = SameInstance-refl wf;
                well_formed = h;
                at_rest = e;
                bounded = omega arith;
              }))
        | inr (t, e) ↦
            rw (e, chain_from)
              (Returns-bind (λ r. Stepped wf r.0) _ _ (apply-Returns host id wf t context h)
                λ r s.
                  Returns-weaken (chain_from-Settled hops id r.0 r.1 (moved || r.2) s.well_formed)
                    λ r' h'. step-Settled s h')
      ]

  pub chain-Returns :
      (id : String) (wf : WorkflowInstance) (context : StrMap)
      → IsWellFormed wf
      → Returns (Settled max_automatic_hops wf) (run_automatic_chain host id wf context)
  unfolding run_automatic_chain
  chain-Returns id wf context h = chain_from-Settled max_automatic_hops id wf context false h

  -- A chain that starts at a well-formed row and succeeds has reached, by fewer than a hundred
  -- transitions, a well-formed row of the same instance from which no completion fires.
  pub run_automatic_chain-Settled :
      (id : String) (wf : WorkflowInstance) (context : StrMap) (p : Process X)
      {r : WorkflowInstance × StrMap × Bool}
      → IsWellFormed wf
      → (run_automatic_chain host id wf context p).0 ≡ ok r
      → Settled max_automatic_hops wf r
  run_automatic_chain-Settled id wf context p {r} h e = (chain-Returns id wf context h).at p r e
