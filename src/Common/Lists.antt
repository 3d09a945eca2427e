-- ===== src/Common/Lists.antt =====
-- Lists: lengths over the native numbers, the first element that passes a test, and all that pass.
use Prim.Native.Nat.{ℕ, suc, ◌+◌}
use mathlib.Core.Path.{◌≡◌, refl, ap, subst}
use mathlib.Core.Logic.{inl, inr}
use mathlib.Core.Bool.{Bool, true, false, ◌&&◌}
use mathlib.Core.Option.{Option, none, some, some-injective}
use mathlib.Core.List.{List, [], ◌∷◌, ◌++◌, map, Memᴰ}
use mathlib.Core.List.Memᴰ.{cases_cons}
use native.Mathlib.Omega.{arith}
use brokr.Common.Tests.{if◌then◌else◌, Bool-cases}

module _ {ℓ} {A : Type ℓ} where
  abbrev pub length : List A → ℕ
  length [] = 0
  length (x ∷ xs) = suc (length xs)

  pub length-append : (xs ys : List A) → length (xs ++ ys) ≡ length xs + length ys
  length-append [] ys = omega arith
  length-append (x ∷ xs) ys = omega (arith, length-append xs ys)

  -- The first element that passes the test, as a `for` loop with an early `return` finds it.
  unfoldable pub first : (A → Bool) → List A → Option A
  first test [] = none
  first test (x ∷ xs) = if test x then some x else first test xs

  -- `for` with `continue` and `append`.
  unfoldable pub select : (A → Bool) → List A → List A
  select test [] = []
  select test (x ∷ xs) = if test x then x ∷ select test xs else select test xs

  abbrev pub All {κ} : (A → Type κ) → List A → Type κ
  All P [] = Unit
  All P (x ∷ xs) = P x × All P xs

  -- `a`, or `b` where there is none.
  abbrev pub or_else : Option A → Option A → Option A
  or_else none b = b
  or_else (some a) b = some a

  -- `x` passes the test, and nothing before it does.
  pub data FirstOf (test : A → Bool) : List A → A → Type ℓ where
    here : {x : A} {xs : List A} → test x ≡ true → FirstOf test (x ∷ xs) x
    later : {x y : A} {xs : List A} → test x ≡ false → FirstOf test xs y → FirstOf test (x ∷ xs) y

  pub first-FirstOf :
      (test : A → Bool) (xs : List A) {x : A} → first test xs ≡ some x → FirstOf test xs x
  unfolding first
  first-FirstOf test [] h = cc
  first-FirstOf test (x ∷ xs) {x = y} h = elim (Bool-cases (test x)) [
    | inl p ↦
        let e : x ≡ y = some-injective x y (rw p at h) in
        subst (λ z. FirstOf test (x ∷ xs) z) e (here p)
    | inr q ↦ later q (first-FirstOf test xs (rw q at h))
  ]

  pub FirstOf-Memᴰ :
      (test : A → Bool) {xs : List A} {x : A} → FirstOf test xs x → Memᴰ x xs × (test x ≡ true)
  FirstOf-Memᴰ test (FirstOf.here p) = (Memᴰ.head refl, p)
  FirstOf-Memᴰ test (FirstOf.later q r) = let (m, p) = FirstOf-Memᴰ test r in (Memᴰ.tail m, p)

  pub first-none :
      (test : A → Bool) (xs : List A) → first test xs ≡ none → All (λ x. test x ≡ false) xs
  unfolding first
  first-none test [] h = tt
  first-none test (x ∷ xs) h = elim (Bool-cases (test x)) [
    | inl p ↦ cc
    | inr q ↦ (q, first-none test xs (rw q at h))
  ]

  pub first-append :
      (test : A → Bool) (xs ys : List A)
      → first test (xs ++ ys) ≡ or_else (first test xs) (first test ys)
  unfolding first
  first-append test [] ys = refl
  first-append test (x ∷ xs) ys = ground (arith, first-append test xs ys)

  pub select-append :
      (test : A → Bool) (xs ys : List A) → select test (xs ++ ys) ≡ select test xs ++ select test ys
  unfolding select
  select-append test [] ys = refl
  select-append test (x ∷ xs) ys = elim (Bool-cases (test x)) [
    | inl p ↦ rw p (ap (λ zs. x ∷ zs) (select-append test xs ys))
    | inr q ↦ rw q (select-append test xs ys)
  ]

  -- The first element that passes `p` among those that pass `q`.
  pub first-select :
      (p q : A → Bool) (xs : List A) → first p (select q xs) ≡ first (λ x. q x && p x) xs
  unfolding first select
  first-select p q [] = refl
  first-select p q (x ∷ xs) = ground (arith, first-select p q xs)

  pub select-select :
      (p q : A → Bool) (xs : List A) → select p (select q xs) ≡ select (λ x. q x && p x) xs
  unfolding select
  select-select p q [] = refl
  select-select p q (x ∷ xs) = ground (arith, select-select p q xs)

  pub first_congr : (p q : A → Bool) (xs : List A) → ((x : A) → p x ≡ q x) → first p xs ≡ first q xs
  unfolding first
  first_congr p q [] h = refl
  first_congr p q (x ∷ xs) h = ground (arith, h x, first_congr p q xs h)

  pub select_congr :
      (p q : A → Bool) (xs : List A) → ((x : A) → p x ≡ q x) → select p xs ≡ select q xs
  unfolding select
  select_congr p q [] h = refl
  select_congr p q (x ∷ xs) h = ground (arith, h x, select_congr p q xs h)

  pub select-Memᴰ :
      (test : A → Bool) (xs : List A) {x : A}
      → Memᴰ x (select test xs)
      → Memᴰ x xs × (test x ≡ true)
  unfolding select
  select-Memᴰ test [] h = elim h [ ]
  select-Memᴰ test (x ∷ xs) {x = y} h = elim (Bool-cases (test x)) [
    | inl p ↦ elim (cases_cons (rw p at h)) [
      | inl e ↦ (Memᴰ.head e, rw e p)
      | inr m ↦ let (m', t) = select-Memᴰ test xs m in (Memᴰ.tail m', t)
    ]
    | inr q ↦ let (m', t) = select-Memᴰ test xs (rw q at h) in (Memᴰ.tail m', t)
  ]

  pub Memᴰ-select :
      (test : A → Bool) {x : A} {xs : List A} → Memᴰ x xs → test x ≡ true → Memᴰ x (select test xs)
  unfolding select
  Memᴰ-select test {x = x} (Memᴰ.head {x = y} {xs = xs} e) h = rw (rw e at h) (Memᴰ.head e)
  Memᴰ-select test {x = x} (Memᴰ.tail {x = y} {xs = xs} m) h = elim (Bool-cases (test y)) [
    | inl p ↦ rw p (Memᴰ.tail (Memᴰ-select test m h))
    | inr q ↦ rw q (Memᴰ-select test m h)
  ]

  -- An element that passes makes the search succeed.
  pub first-some :
      (test : A → Bool) {x : A} {xs : List A}
      → Memᴰ x xs
      → test x ≡ true
      → (y : A) × (first test xs ≡ some y)
  unfolding first
  first-some test (Memᴰ.head {x = y} {xs = xs} e) h = (y, rw (rw e at h))
  first-some test (Memᴰ.tail {x = y} {xs = xs} m) h = elim (Bool-cases (test y)) [
    | inl p ↦ (y, rw p)
    | inr q ↦ rw q (first-some test m h)
  ]

module _ {ℓ κ} {A : Type ℓ} {B : Type κ} where
  -- Searching and selecting among images.
  pub first-map :
      (f : A → B) (test : B → Bool) (xs : List A)
      → first test (map f xs)
        ≡ elim (first (λ a. test (f a)) xs) [ none ↦ none | some a ↦ some (f a) ]
  unfolding first
  first-map f test [] = refl
  first-map f test (x ∷ xs) = ground (arith, first-map f test xs)

  pub select-map :
      (f : A → B) (test : B → Bool) (xs : List A)
      → select test (map f xs) ≡ map f (select (λ a. test (f a)) xs)
  unfolding select
  select-map f test [] = refl
  select-map f test (x ∷ xs) = ground (arith, select-map f test xs)
