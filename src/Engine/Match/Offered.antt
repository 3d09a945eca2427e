-- ===== src/Engine/Match/Offered.antt =====
-- What possibleEventsFor offers against what findCandidateTransition accepts.
use mathlib.Core.List.{Memᴰ}
use mathlib.Core.List.Memᴰ
use mathlib.Core.List.Memᴰ.{of_map}
use brokr.Common.{
  sym, String, true, false, some, StrMap, ◌≡◌, arith, subst, first-some, select-Memᴰ, Memᴰ-select,
  first-FirstOf, FirstOf-Memᴰ, eq_iff,
}
use brokr.Model.Kinds.{is_automatic}
use brokr.Model.Guard.{Floats}
use brokr.Model.Transition.{fields}
use brokr.Model.Workflow.{Transition}
use brokr.Engine.Instance.{WorkflowInstance}
use brokr.Engine.Match.{find_candidate_transition, possible_events_for}
use brokr.Engine.Match.Candidates.{
  candidates, enabled, manual, manual_events, find_candidate_transition-eq-first,
  possible_events_for-eq-manual_events,
}

module _ {F : Type 0} (floats : Floats F) (context : StrMap) (event : String) (t : Transition) where
  manual-enabled :
      event ≡ (fields t).event
      → manual floats context t ≡ true
      → enabled floats event context t ≡ true
  manual-enabled e p = ground (arith, eq_iff (fields t).event event)

  enabled-manual :
      is_automatic (fields t).trigger ≡ false
      → enabled floats event context t ≡ true
      → (manual floats context t ≡ true) × ((fields t).event ≡ event)
  enabled-manual q p = ground (arith, eq_iff (fields t).event event)

module _ {F : Type 0} (floats : Floats F) (wf : WorkflowInstance) (context : StrMap) where
  -- Every event that is offered to a client finds a transition.
  pub offered_fires :
      (event : String)
      → Memᴰ event (possible_events_for floats wf context)
      → (t : Transition) × (find_candidate_transition floats wf event context ≡ some t)
  unfolding manual_events
  offered_fires event m =
      let m₁ = rw possible_events_for-eq-manual_events at m in
      let (t, m₂, e) = of_map (λ t. (fields t).event) _ m₁ in
      let (m₃, p) = select-Memᴰ (manual floats context) (candidates wf) m₂ in
      rw find_candidate_transition-eq-first (
        first-some (enabled floats event context) m₃
          (manual-enabled floats context event t (sym e) p))

  -- An event that fires a transition which is no completion is offered.
  pub fires_offered :
      (event : String) {t : Transition}
      → find_candidate_transition floats wf event context ≡ some t
      → is_automatic (fields t).trigger ≡ false
      → Memᴰ event (possible_events_for floats wf context)
  unfolding manual_events
  fires_offered event {t} found by_hand =
      let (m, p) =
        FirstOf-Memᴰ (enabled floats event context)
          (first-FirstOf _ (candidates wf) (rw find_candidate_transition-eq-first at found)) in
      rw possible_events_for-eq-manual_events (
        let (p', e) = enabled-manual floats context event t by_hand p in
        subst (λ x. Memᴰ x (manual_events floats context (candidates wf))) e
          (Memᴰ.map (λ t. (fields t).event) (Memᴰ-select (manual floats context) m p')))
