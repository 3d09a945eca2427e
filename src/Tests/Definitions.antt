-- ===== src/Tests/Definitions.antt =====
-- Guards and defaults at concrete inputs.
use brokr.Common.{lookup, ℕ, ◌+◌, String, true, some, [], ◌∷◌, StrMap, ◌≡◌, refl}
use brokr.Model.Kinds.{gt}
use brokr.Model.Workflow.{Guard, Workflow, workflow, nil_transitions, nil_common, cons, nil, simple}
use brokr.Model.Guard.{evaluate}
use brokr.Model.Guard.Laws.{Compared, evaluate-Compared}
use brokr.Model.Defaults.{fill_state, fill_workflow, apply_defaults}
use brokr.Model.Defaults.Idempotent.{apply_defaults_idem}
use brokr.Tests.Fixture.{digits, order, named}

abbrev more_than_one : Guard
more_than_one = record { key = "items"; op = gt; value = "1" }

abbrev two_items : StrMap
two_items = ("items", "2") ∷ []

two_pass : evaluate digits (some more_than_one) two_items ≡ true
unfolding evaluate lookup
two_pass = refl

abbrev clock : ℕ → String × ℕ
clock n = ("2024-01-01T00:00:00Z", n + 1)

abbrev bare : Workflow
bare =
    workflow (record order { version = ""; creation_date = ""; initial_state = "" })
      (cons (simple (record (named "created") { status = ""; bullet_name = "" })) nil)
      nil_transitions nil_common

filled :
    (apply_defaults clock bare 0).0
    ≡ workflow
        (record order {
          creation_date = "2024-01-01T00:00:00Z";
          update_date = "2024-01-01T00:00:00Z";
        })
        (cons (simple (named "created")) nil)
        nil_transitions
        nil_common
unfolding apply_defaults fill_workflow fill_state
filled = refl

evaluate-Compared_example : Compared digits more_than_one two_items
evaluate-Compared_example = evaluate-Compared digits more_than_one two_items refl two_pass

apply_defaults_idem_example :
    (apply_defaults clock (apply_defaults clock bare 0).0 7).0 ≡ (apply_defaults clock bare 0).0
apply_defaults_idem_example = apply_defaults_idem clock (λ c. refl) bare 0 7
