-- ===== src/Engine/Match/Candidates.antt =====
-- findCandidateTransition and possibleEventsFor against one list of candidates: all transitions that
-- leave the current position, innermost first, then the common ones.
use brokr.Common.{
  String, Bool, not, ◌==◌, ◌&&◌, Option, none, some, List, [], ◌∷◌, ◌++◌, StrMap, first, select,
  map, ◌≡◌, refl, arith, ap, ◌∙◌, sym, first-append, select-append, first-select, select-select,
  first-map, select-map, first_congr, select_congr,
}
use mathlib.Core.List.{map-map, map_congr_left, append-nil, append_assoc, map-append}
use brokr.Model.Kinds.{is_automatic}
use brokr.Model.Guard.{Floats}
use brokr.Model.State.{get_id, as_composite}
use brokr.Model.Composite.{sub_transitions}
use brokr.Model.Transition.{fields, common_fields}
use brokr.Model.Workflow.{State, CompositeState, Transition, CommonTransition, common_transition}
use brokr.Engine.Instance.{WorkflowInstance, workflow_transitions, workflow_common, contains}
use brokr.Engine.Match.{
  TransitionScope, transition_scopes, search_scopes, inner_scope, synthesize, passes, match_in,
  matches_common, match_common_transition, find_candidate_transition, possible_events_for, collect,
  common_events, inner_events, matches_manual_common,
}

-- The transitions of the scopes that leave the scope's own state.
unfoldable pub scoped : List TransitionScope → List Transition
scoped [] = []
scoped (sc ∷ scs) = select (λ t. (fields t).source == sc.source_id) sc.transitions ++ scoped scs

unfoldable pub shared : String → List CommonTransition → List Transition
shared id cs = map (synthesize id) (select (λ c. contains id (common_fields c).source_list) cs)

-- The transitions of a list that leave a state.
abbrev pub leaving : String → List Transition → List Transition
leaving id ts = select (λ t. (fields t).source == id) ts

-- Where the position is a substate of a composite, the composite's transitions that leave it.
abbrev pub inner_candidates : Option State → Option CompositeState → List Transition
inner_candidates (some sub) (some comp) = leaving (get_id sub) (sub_transitions comp)
inner_candidates (some sub) none = []
inner_candidates none comp = []

-- First what leaves the substate, then what leaves the state, and the common transitions last.
unfoldable pub candidates : WorkflowInstance → List Transition
unfolding shared
candidates wf =
    let id = get_id wf.current_state.state in
    inner_candidates wf.current_state.substate (as_composite wf.current_state.state)
    ++ (leaving id (workflow_transitions wf.workflow_definition)
        ++ shared id (workflow_common wf.workflow_definition))

pub scoped-append : (xs ys : List TransitionScope) → scoped (xs ++ ys) ≡ scoped xs ++ scoped ys
unfolding scoped
scoped-append [] ys = refl
scoped-append (sc ∷ xs) ys = rw (scoped-append xs ys) (rw append_assoc)

scoped-inner :
    (sub : Option State) (comp : Option CompositeState)
    → scoped (inner_scope sub comp) ≡ inner_candidates sub comp
unfolding scoped inner_scope
scoped-inner (some sub) (some comp) = append-nil _
scoped-inner (some sub) none = refl
scoped-inner none comp = refl

-- The scopes that transitionScopes lists hold the candidates in their order.
pub candidates-scoped :
    (wf : WorkflowInstance)
    → candidates wf
      ≡ scoped (transition_scopes wf)
        ++ shared (get_id wf.current_state.state) (workflow_common wf.workflow_definition)
unfolding candidates transition_scopes
candidates-scoped wf =
    simp
      (
        scoped-append,
        ← scoped-inner wf.current_state.substate (as_composite wf.current_state.state),
        append_assoc,
      )
      (unfold scoped in rw append-nil refl)

module _ {F : Type 0} (floats : Floats F) where
  abbrev pub enabled : String → StrMap → Transition → Bool
  enabled event context t = (fields t).event == event && passes floats context t

  abbrev pub manual : StrMap → Transition → Bool
  manual context t = not (is_automatic (fields t).trigger) && passes floats context t

  match_in-select :
      (event : String) (context : StrMap) (ts : List Transition) (id : String)
      → match_in floats ts id event context
        ≡ first (enabled event context) (select (λ t. (fields t).source == id) ts)
  unfolding match_in
  match_in-select event context ts id =
      first_congr _ _ ts (λ t. ground arith) ∙ sym (first-select (enabled event context) _ ts)

  search-scoped :
      (event : String) (context : StrMap) (scs : List TransitionScope)
      → search_scopes (λ sc. match_in floats sc.transitions sc.source_id event context) scs
        ≡ first (enabled event context) (scoped scs)
  unfolding search_scopes scoped first
  search-scoped event context [] = refl
  search-scoped event context (sc ∷ scs) = rw first-append (
      rw (← match_in-select event context sc.transitions sc.source_id)
        (rw (← search-scoped event context scs) (ground arith)))

  matches_common-shared :
      (id event : String) (context : StrMap) (c : CommonTransition)
      → matches_common floats id event context c
        ≡ (contains id (common_fields c).source_list && enabled event context (synthesize id c))
  unfolding matches_common synthesize
  matches_common-shared id event context (common_transition c entry) = ground arith

  manual_common-shared :
      (id : String) (context : StrMap) (c : CommonTransition)
      → matches_manual_common floats id context c
        ≡ (contains id (common_fields c).source_list && manual context (synthesize id c))
  unfolding matches_manual_common synthesize
  manual_common-shared id context (common_transition c entry) = ground arith

  event-synthesize :
      (id : String) (c : CommonTransition)
      → (fields (synthesize id c)).event ≡ (common_fields c).event
  unfolding synthesize
  event-synthesize id (common_transition c entry) = refl

  common-shared :
      (id event : String) (context : StrMap) (cs : List CommonTransition)
      → match_common_transition floats cs id event context
        ≡ first (enabled event context) (shared id cs)
  unfolding match_common_transition shared
  common-shared id event context cs =
      rw (first-map, first-select, ← first_congr _ _ cs (matches_common-shared id event context))
        (ground arith)

  -- Of the transitions that leave the substate, then those that leave the state, then the common ones
  -- of the state, each in the order of the definition, the first one with the event and a passing guard
  -- fires, and none where there is no such one.
  pub find_candidate_transition-eq-first :
      (wf : WorkflowInstance) (event : String) (context : StrMap)
      → find_candidate_transition floats wf event context
        ≡ first (enabled event context) (candidates wf)
  unfolding find_candidate_transition
  find_candidate_transition-eq-first wf event context =
      let id = get_id wf.current_state.state in
      let cs = workflow_common wf.workflow_definition in
      rw (candidates-scoped wf, first-append, ← search-scoped event context (transition_scopes wf))
        (rw (← common-shared id event context cs) (ground arith))

  -- The events of the transitions that no completion fires and whose guards pass.
  unfoldable pub manual_events : StrMap → List Transition → List String
  manual_events context ts = map (λ t. (fields t).event) (select (manual context) ts)

  manual_events-append :
      (context : StrMap) (xs ys : List Transition)
      → manual_events context (xs ++ ys) ≡ manual_events context xs ++ manual_events context ys
  unfolding manual_events
  manual_events-append context xs ys = rw (select-append, map-append)

  collect-select :
      (context : StrMap) (ts : List Transition) (id : String)
      → collect floats ts id context
        ≡ manual_events context (select (λ t. (fields t).source == id) ts)
  unfolding collect manual_events
  collect-select context ts id =
      ap (map (λ t. (fields t).event))
        (select_congr _ _ ts (λ t. ground arith) ∙ sym (select-select (manual context) _ ts))

  common_events-shared :
      (context : StrMap) (cs : List CommonTransition) (id : String)
      → common_events floats cs id context ≡ manual_events context (shared id cs)
  unfolding common_events shared manual_events
  common_events-shared context cs id =
      rw (select-map, select-select, ← select_congr _ _ cs (manual_common-shared id context))
        (rw map-map (map_congr_left (λ c _. sym (event-synthesize id c))))

  inner_events-scoped :
      (context : StrMap) (sub : Option State) (comp : Option CompositeState)
      → inner_events floats sub comp context ≡ manual_events context (scoped (inner_scope sub comp))
  unfolding inner_events inner_scope scoped manual_events select
  inner_events-scoped context (some sub) (some comp) =
      rw append-nil (collect-select context (sub_transitions comp) (get_id sub))
  inner_events-scoped context (some sub) none = refl
  inner_events-scoped context none _ = refl

  -- The possible events are those of the candidates that are sent by hand and whose guards pass.
  pub possible_events_for-eq-manual_events :
      (wf : WorkflowInstance) (context : StrMap)
      → possible_events_for floats wf context ≡ manual_events context (candidates wf)
  unfolding possible_events_for transition_scopes
  possible_events_for-eq-manual_events wf context =
      simp
        (
          candidates-scoped wf,
          inner_events-scoped,
          collect-select,
          common_events-shared,
          manual_events-append,
          scoped-append,
          append_assoc,
        )
        (unfold scoped manual_events select in rw append-nil refl)
