-- ===== src/Engine/Match/Completion.antt =====
-- The transitions that no event fires: completions, deferred ones and joins.
use brokr.Common.{
  Bool, not, ◌==◌, ◌&&◌, Option, List, [], ◌∷◌, ◌++◌, StrMap, first, select, ◌≡◌, refl, arith, ap,
  sym, ◌∙◌, first-append, first-select, select-append, select-select, first_congr, select_congr,
}
use brokr.Model.Kinds.{is_automatic}
use brokr.Model.Guard.{Floats}
use brokr.Model.Transition.{fields, is_join}
use brokr.Model.Workflow.{Transition}
use brokr.Engine.Instance.{WorkflowInstance}
use brokr.Engine.Match.{
  TransitionScope, passes, search_scopes, transition_scopes, match_automatic_in,
  find_automatic_transition, deferred_in_scopes, find_deferred_transitions, match_deferred_in,
  find_pending_join_transition,
}
use brokr.Engine.Match.Candidates.{scoped}

-- A search of the scopes is a search of their transitions.
search-first :
    (find : TransitionScope → Option Transition) (test : Transition → Bool)
    (scs : List TransitionScope)
    → ((sc : TransitionScope)
        → find sc ≡ first test (select (λ t. (fields t).source == sc.source_id) sc.transitions))
    → search_scopes find scs ≡ first test (scoped scs)
unfolding search_scopes scoped first
search-first find test [] h = refl
search-first find test (sc ∷ scs) h =
    rw (first-append, ← h sc, ← search-first find test scs h) (ground arith)

-- The first join that leaves the position, innermost scope first, whatever its guard.
pub find_pending_join_transition-eq-first :
    (wf : WorkflowInstance)
    → find_pending_join_transition wf ≡ first is_join (scoped (transition_scopes wf))
unfolding find_pending_join_transition
find_pending_join_transition-eq-first wf =
    search-first _ is_join (transition_scopes wf)
      (λ sc. sym (first-select is_join _ sc.transitions))

module _ {F : Type 0} (floats : Floats F) where
  abbrev pub immediate : StrMap → Transition → Bool
  immediate context t =
      is_automatic (fields t).trigger && (fields t).after == "" && passes floats context t

  abbrev pub delayed : StrMap → Transition → Bool
  delayed context t =
      is_automatic (fields t).trigger && not ((fields t).after == "") && passes floats context t

  -- The completion that fires is the first one without a delay whose guard passes.
  pub find_automatic_transition-eq-first :
      (wf : WorkflowInstance) (context : StrMap)
      → find_automatic_transition floats wf context
        ≡ first (immediate context) (scoped (transition_scopes wf))
  unfolding find_automatic_transition match_automatic_in
  find_automatic_transition-eq-first wf context =
      search-first _ (immediate context) (transition_scopes wf) (λ sc.
        first_congr _ _ sc.transitions (λ t. ground arith)
        ∙ sym (first-select (immediate context) _ sc.transitions))

  deferred-select :
      (context : StrMap) (scs : List TransitionScope)
      → deferred_in_scopes floats scs context ≡ select (delayed context) (scoped scs)
  unfolding deferred_in_scopes scoped match_deferred_in select
  deferred-select context [] = refl
  deferred-select context (sc ∷ scs) =
      rw (select-append, select-select, ← deferred-select context scs)
        (ap (λ ts. ts ++ deferred_in_scopes floats scs context)
          (select_congr _ _ sc.transitions (λ t. ground arith)))

  -- The deferred transitions are all completions with a delay and a passing guard that leave the
  -- position, in the order of the scopes.
  pub find_deferred_transitions-eq-select :
      (wf : WorkflowInstance) (context : StrMap)
      → find_deferred_transitions floats wf context
        ≡ select (delayed context) (scoped (transition_scopes wf))
  unfolding find_deferred_transitions
  find_deferred_transitions-eq-select wf context = deferred-select context (transition_scopes wf)
