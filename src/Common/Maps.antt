-- ===== src/Common/Maps.antt =====
-- Go's `map[string]string` as an association list with one entry for each key that is set.
use Prim.Native.String.{String}
use mathlib.Core.Path.{◌≡◌, refl}
use mathlib.Core.Option.{Option, none, some}
use mathlib.Core.List.{List, [], ◌∷◌}
use native.Mathlib.Omega.{arith}
use text.Mathlib.Text.{◌==◌}
use text.Mathlib.TextEquality.{eq_iff}
use brokr.Common.Tests.{if◌then◌else◌}

-- The entries of a map with values in `V`.
abbrev pub Entries {ℓ} : Type ℓ → Type ℓ
Entries V = List (String × V)

abbrev pub StrMap : Type 0
StrMap = Entries String

module _ {ℓ} {V : Type ℓ} where
  -- v, ok := m[key]
  unfoldable pub lookup : String → Entries V → Option V
  lookup key [] = none
  lookup key ((other, value) ∷ rest) = if other == key then some value else lookup key rest

  -- delete(m, key)
  unfoldable pub delete : String → Entries V → Entries V
  delete key [] = []
  delete key ((other, value) ∷ entries) =
      let rest = delete key entries in if other == key then rest else (other, value) ∷ rest

  pub lookup-delete :
      (gone wanted : String) (entries : Entries V)
      → lookup wanted (delete gone entries)
        ≡ (if gone == wanted then none else lookup wanted entries)
  unfolding lookup delete
  lookup-delete gone wanted [] = ground arith
  lookup-delete gone wanted ((i, v) ∷ rest) =
      ground
        (arith, eq_iff i gone, eq_iff i wanted, eq_iff gone wanted, lookup-delete gone wanted rest)

  -- m[key] = value
  unfoldable pub insert : String → V → Entries V → Entries V
  insert key value [] = (key, value) ∷ []
  insert key value ((other, old) ∷ rest) =
      if other == key then (key, value) ∷ rest else (other, old) ∷ insert key value rest

  pub lookup-insert :
      (key wanted : String) (value : V) (entries : Entries V)
      → lookup wanted (insert key value entries)
        ≡ (if key == wanted then some value else lookup wanted entries)
  unfolding lookup insert
  lookup-insert key wanted value [] = refl
  lookup-insert key wanted value ((i, old) ∷ rest) =
      ground (
        arith,
        eq_iff key wanted,
        eq_iff i key,
        eq_iff i wanted,
        lookup-insert key wanted value rest,
      )
