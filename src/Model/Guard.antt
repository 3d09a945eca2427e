-- ===== src/Model/Guard.antt =====
-- model/guard.go: the guard of a transition, evaluated against the context of an instance.
pub mod Laws
use brokr.Common.{
  String, Bool, true, false, not, ◌&&◌, ◌||◌, ◌==◌, Option, none, some, StrMap, lookup,
}
use brokr.Model.Kinds.{GuardOp, unset, eq, neq, gt, gte, lt, lte, exists, not_exists}
use brokr.Model.Workflow.{Guard}

-- float64: strconv.ParseFloat, with `none` for its error, and Go's comparisons of two floats.
pub record Floats (F : Type 0) : Type 0 where
  pub parse_float : String → Option F
  pub greater : F → F → Bool
  pub greater_eq : F → F → Bool
  pub less : F → F → Bool
  pub less_eq : F → F → Bool

module _ {F : Type 0} (floats : Floats F) where
  -- The inner `switch`; its `default` is LTE, since the outer case lets only four operators in.
  unfoldable pub compare_floats : GuardOp → F → F → Bool
  compare_floats gt a b = floats.greater a b
  compare_floats gte a b = floats.greater_eq a b
  compare_floats lt a b = floats.less a b
  compare_floats _ a b = floats.less_eq a b

  compare_parsed : GuardOp → Option F → Option F → Bool
  compare_parsed op (some a) (some b) = compare_floats op a b
  compare_parsed op _ _ = false

  compare_numbers : GuardOp → Option String → String → Bool
  compare_numbers op none value = false
  compare_numbers op (some actual) value =
      compare_parsed op (floats.parse_float actual) (floats.parse_float value)

  -- present && actual == g.Value
  equals : Option String → String → Bool
  equals none value = false
  equals (some actual) value = actual == value

  is_present : Option String → Bool
  is_present none = false
  is_present (some _) = true

  evaluate_op : GuardOp → Option String → String → Bool
  unfolding compare_numbers compare_parsed compare_floats equals is_present
  evaluate_op exists found value = is_present found
  evaluate_op not_exists found value = not (is_present found)
  evaluate_op eq found value = equals found value
  evaluate_op neq found value = not (equals found value)
  evaluate_op gt found value = compare_numbers gt found value
  evaluate_op gte found value = compare_numbers gte found value
  evaluate_op lt found value = compare_numbers lt found value
  evaluate_op lte found value = compare_numbers lte found value
  evaluate_op unset found value = false

  -- Guard.Evaluate; a nil guard passes.
  unfoldable pub evaluate : Option Guard → StrMap → Bool
  unfolding evaluate_op
  evaluate none context = true
  evaluate (some g) context = evaluate_op g.op (lookup g.key context) g.value
