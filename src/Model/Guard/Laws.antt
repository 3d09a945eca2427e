-- ===== src/Model/Guard/Laws.antt =====
-- When a guard passes (model/guard.go).
use brokr.Common.{
  String, Bool, true, false, ◌==◌, Option, none, some, StrMap, lookup, insert, lookup-insert, ◌≡◌,
  refl, ap, sym, ◌∙◌,
}
use brokr.Model.Kinds.{GuardOp, unset, eq, neq, gt, gte, lt, lte, exists, not_exists}
use brokr.Model.Workflow.{Guard}
use brokr.Model.Guard.{
  Floats, evaluate, evaluate_op, compare_floats, compare_numbers, compare_parsed,
}

-- The operators that compare numbers.
abbrev pub is_numeric : GuardOp → Bool
is_numeric gt = true
is_numeric gte = true
is_numeric lt = true
is_numeric lte = true
is_numeric _ = false

module _ {F : Type 0} (floats : Floats F) where
  -- What an operator asks of two numbers.
  abbrev pub Relation : GuardOp → F → F → Type 0
  Relation gt a b = floats.greater a b ≡ true
  Relation gte a b = floats.greater_eq a b ≡ true
  Relation lt a b = floats.less a b ≡ true
  Relation lte a b = floats.less_eq a b ≡ true
  Relation _ a b = ⊥

  -- Two numbers that the key and the guard hold, in the relation that the operator asks for.
  pub record Compared (g : Guard) (context : StrMap) : Type 0 where
    pub actual : String
    pub left : F
    pub right : F
    pub present : lookup g.key context ≡ some actual
    pub left_parsed : floats.parse_float actual ≡ some left
    pub right_parsed : floats.parse_float g.value ≡ some right
    pub holds : Relation g.op left right

  op-numeric :
      (op : GuardOp) (found : Option String) (value : String)
      → is_numeric op ≡ true
      → evaluate_op floats op found value ≡ compare_numbers floats op found value
  unfolding evaluate_op
  op-numeric gt found value n = refl
  op-numeric gte found value n = refl
  op-numeric lt found value n = refl
  op-numeric lte found value n = refl
  op-numeric unset found value n = cc
  op-numeric eq found value n = cc
  op-numeric neq found value n = cc
  op-numeric exists found value n = cc
  op-numeric not_exists found value n = cc

  compared-Relation :
      (op : GuardOp) (a b : F)
      → is_numeric op ≡ true
      → compare_floats floats op a b ≡ true
      → Relation op a b
  unfolding compare_floats
  compared-Relation gt a b n h = h
  compared-Relation gte a b n h = h
  compared-Relation lt a b n h = h
  compared-Relation lte a b n h = h
  compared-Relation unset a b n h = cc
  compared-Relation eq a b n h = cc
  compared-Relation neq a b n h = cc
  compared-Relation exists a b n h = cc
  compared-Relation not_exists a b n h = cc

  parsed-Compared :
      (g : Guard) (context : StrMap) (actual : String) (a b : Option F)
      → lookup g.key context ≡ some actual
      → floats.parse_float actual ≡ a
      → floats.parse_float g.value ≡ b
      → is_numeric g.op ≡ true
      → compare_parsed floats g.op a b ≡ true
      → Compared g context
  unfolding compare_parsed
  parsed-Compared g context actual (some x) (some y) p l r n h = record {
    actual = actual;
    left = x;
    right = y;
    present = p;
    left_parsed = l;
    right_parsed = r;
    holds = compared-Relation g.op x y n h;
  }
  parsed-Compared g context actual none b p l r n h = cc
  parsed-Compared g context actual (some x) none p l r n h = cc

  found-Compared :
      (g : Guard) (context : StrMap) (found : Option String)
      → lookup g.key context ≡ found
      → is_numeric g.op ≡ true
      → compare_numbers floats g.op found g.value ≡ true
      → Compared g context
  unfolding compare_numbers
  found-Compared g context none p n h = cc
  found-Compared g context (some actual) p n h =
      parsed-Compared g context actual _ _ p refl refl n h

  -- A guard that compares numbers passes only if the key is set, both texts are numbers, and they
  -- stand in the relation: greater for GT, greater or equal for GTE, less for LT, less or equal for LTE.
  pub evaluate-Compared :
      (g : Guard) (context : StrMap)
      → is_numeric g.op ≡ true
      → evaluate floats (some g) context ≡ true
      → Compared g context
  unfolding evaluate
  evaluate-Compared g context numeric h =
      found-Compared g context _ refl numeric (sym (op-numeric g.op _ g.value numeric) ∙ h)

  -- A guard does not read what another key is set to.
  pub evaluate-insert :
      (g : Guard) (context : StrMap) (key value : String)
      → (key == g.key) ≡ false
      → evaluate floats (some g) (insert key value context) ≡ evaluate floats (some g) context
  unfolding evaluate
  evaluate-insert g context key value other =
      ap (λ found. evaluate_op floats g.op found g.value)
        (lookup-insert key g.key value context ∙ rw other)
