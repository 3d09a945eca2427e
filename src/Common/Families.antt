-- ===== src/Common/Families.antt =====
-- Families over the numbers: one entry replaced, and sums over an initial part.
use Prim.Native.Nat.{ℕ, zero, suc, ◌+◌, ◌≤◌, ◌<◌, compare, Ordering}
use mathlib.Core.Path.{◌≡◌, refl}
use mathlib.Core.Logic.{inl, inr}
use mathlib.Core.Bool.{Bool, true, false}
use native.Mathlib.Decide.{dec_lt}
use native.Mathlib.Omega.{arith}
use brokr.Common.Tests.{if◌then◌else◌, Bool-cases}

abbrev pub same : ℕ → ℕ → Bool
same a b = elim (compare a b) [ Ordering.eq ↦ true | _ ↦ false ]

pub same_refl : (a : ℕ) → same a a ≡ true
same_refl a = ground arith

module _ {ℓ} {A : Type ℓ} where
  abbrev pub set_at : ℕ → A → (ℕ → A) → ℕ → A
  set_at a x f b = if same a b then x else f b

  -- What holds of the new entry and of all old ones holds of all entries.
  pub set_at-all {κ} :
      (P : A → Type κ) (a : ℕ) (x : A) (f : ℕ → A)
      → P x
      → ((b : ℕ) → P (f b))
      → (b : ℕ) → P (set_at a x f b)
  set_at-all P a x f h hs b = elim (Bool-cases (same a b)) [ inl e ↦ rw e h | inr e ↦ rw e (hs b) ]

  -- The sum of the weights of the first `n` entries.
  unfoldable pub sum : (A → ℕ) → ℕ → (ℕ → A) → ℕ
  sum weight zero f = 0
  sum weight (suc n) f = weight (f n) + sum weight n f

  pub sum_above :
      (weight : A → ℕ) (n a : ℕ) (x : A) (f : ℕ → A)
      → n ≤ a
      → sum weight n (set_at a x f) ≡ sum weight n f
  unfolding sum
  sum_above weight zero a x f h = refl
  sum_above weight (suc n) a x f h = ground (arith, sum_above weight n a x f (omega (arith, h)))

  pub sum_within :
      (weight : A → ℕ) (n a : ℕ) (x : A) (f : ℕ → A)
      → a < n
      → sum weight n (set_at a x f) + weight (f a) ≡ sum weight n f + weight x
  unfolding sum
  sum_within weight zero a x f h = omega (arith, h)
  sum_within weight (suc n) a x f h = elim (Bool-cases (same a n)) [
    | inl e ↦
        let q : a ≡ n = ground arith in
        ground (arith, sum_above weight n a x f (omega (arith, q)), q)
    | inr e ↦ let q : a < n = ground arith in ground (arith, sum_within weight n a x f q)
  ]

  pub sum_part :
      (weight : A → ℕ) (n : ℕ) (f : ℕ → A) (a : ℕ) → a < n → weight (f a) ≤ sum weight n f
  unfolding sum
  sum_part weight zero f a h = omega (arith, h)
  sum_part weight (suc n) f a h = elim (Bool-cases (same a n)) [
    | inl q ↦ let r : a ≡ n = ground arith in rw r (omega arith)
    | inr q ↦ let p = sum_part weight n f a (ground arith) in omega (arith, p)
  ]

  -- A sum that is zero has no weight in it.
  pub sum_zero :
      (weight : A → ℕ) (n : ℕ) (f : ℕ → A) → sum weight n f ≡ 0 → (a : ℕ) → a < n → weight (f a) ≡ 0
  sum_zero weight n f e a h = omega (arith, sum_part weight n f a h, e)

  -- A sum that is not zero has a weight in it.
  pub sum_witness :
      (weight : A → ℕ) (n : ℕ) (f : ℕ → A)
      → 0 < sum weight n f
      → (a : ℕ) × (a < n) × (0 < weight (f a))
  unfolding sum
  sum_witness weight zero f h = absurd (omega (arith, h))
  sum_witness weight (suc n) f h = elim (dec_lt 0 (weight (f n))) [
    | yes p ↦ (n, omega arith, p)
    | no q ↦
        let (a, lt, p) = sum_witness weight n f (omega (arith, h, q)) in (a, omega (arith, lt), p)
  ]
