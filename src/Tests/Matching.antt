-- ===== src/Tests/Matching.antt =====
-- Which transitions of the order workflow fire, and the theorems on them at its first state.
use brokr.Model.Kinds.{is_automatic}
use brokr.Model.Guard.{evaluate}
use mathlib.Core.List.{Memᴰ}
use brokr.Common.{none, some, [], ◌∷◌, ◌≡◌, refl, first, select}
use brokr.Model.Workflow.{Transition}
use brokr.Engine.Match.{
  find_candidate_transition, possible_events_for, find_automatic_transition,
  find_deferred_transitions, find_pending_join_transition, transition_scopes,
}
use brokr.Engine.Match.Candidates.{candidates, enabled, find_candidate_transition-eq-first}
use brokr.Engine.Match.Offered.{offered_fires, fires_offered}
use brokr.Tests.Fixture.{digits, pay, expire, gather, instance_a}

-- Runs.
pay_fires : find_candidate_transition digits instance_a "pay" [] ≡ some pay
unfolding find_candidate_transition transition_scopes first evaluate
pay_fires = refl

offers : possible_events_for digits instance_a [] ≡ "pay" ∷ "refund" ∷ "gather" ∷ []
unfolding possible_events_for select is_automatic evaluate
offers = refl

waits : find_automatic_transition digits instance_a [] ≡ none
unfolding find_automatic_transition transition_scopes first is_automatic
waits = refl

expires : find_deferred_transitions digits instance_a [] ≡ expire ∷ []
unfolding find_deferred_transitions transition_scopes select is_automatic evaluate
expires = refl

gathers : find_pending_join_transition instance_a ≡ some gather
unfolding find_pending_join_transition transition_scopes first
gathers = refl

-- The theorems.
find_candidate_transition-eq-first_example :
    find_candidate_transition digits instance_a "pay" []
    ≡ first (enabled digits "pay" []) (candidates instance_a)
find_candidate_transition-eq-first_example =
    find_candidate_transition-eq-first digits instance_a "pay" []

pay_offered : Memᴰ "pay" (possible_events_for digits instance_a [])
unfolding possible_events_for select is_automatic evaluate
pay_offered = Memᴰ.head refl

offered_fires_example :
    (t : Transition) × (find_candidate_transition digits instance_a "pay" [] ≡ some t)
offered_fires_example = offered_fires digits instance_a [] "pay" pay_offered

fires_offered_example : Memᴰ "pay" (possible_events_for digits instance_a [])
unfolding is_automatic
fires_offered_example = fires_offered digits instance_a [] "pay" pay_fires refl
