-- ===== src/Common/Text.antt =====
-- What the program uses of Go's package strings.
use Prim.Native.Nat.{ℕ, zero, suc, ◌/◌, ◌%◌}
use Prim.Native.Char.{Char, code}
use Prim.Native.String.{String, [], ◌∷◌, ◌++◌}
use Prim.Native.Nat.{compare, Ordering}
use mathlib.Core.Bool.{Bool, true, false, ◌&&◌, ◌||◌}
use mathlib.Core.List.{List}
use mathlib.Core.Path.{◌≡◌, refl}
use brokr.Common.Tests.{ltb, if◌then◌else◌}

same_char : Char → Char → Bool
same_char a b = elim (compare (code a) (code b)) [ Ordering.eq ↦ true | _ ↦ false ]

-- strings.HasPrefix
unfoldable pub has_prefix : String → String → Bool
unfolding same_char
has_prefix s [] = true
has_prefix [] (p ∷ ps) = false
has_prefix (c ∷ cs) (p ∷ ps) = same_char c p && has_prefix cs ps

in_cutset : Char → String → Bool
unfolding same_char
in_cutset c [] = false
in_cutset c (d ∷ ds) = same_char c d || in_cutset c ds

trim_left : String → String → String
unfolding in_cutset
trim_left [] cutset = []
trim_left (c ∷ cs) cutset =
    let rest = trim_left cs cutset in if in_cutset c cutset then rest else c ∷ cs

with_first : Char → String → String → String
unfolding in_cutset
with_first c [] cutset = if in_cutset c cutset then [] else c ∷ []
with_first c (d ∷ ds) cutset = c ∷ (d ∷ ds)

trim_right : String → String → String
unfolding with_first
trim_right [] cutset = []
trim_right (c ∷ cs) cutset = with_first c (trim_right cs cutset) cutset

-- strings.Trim
unfoldable pub trim : String → String → String
unfolding trim_left trim_right
trim s cutset = trim_right (trim_left s cutset) cutset

trimmed : trim "//api/v1/" "/" ≡ "api/v1"
unfolding trim
trimmed = refl

ext_from : Char → String → String → String
unfolding same_char
ext_from c cs [] = if in_cutset c "." then c ∷ cs else []
ext_from c cs (d ∷ ds) = d ∷ ds

-- filepath.Ext, for a name without a separator: the part from the last dot on
unfoldable pub ext : String → String
unfolding ext_from in_cutset
ext [] = []
ext (c ∷ cs) = ext_from c cs (ext cs)

last_extension : ext "order.v2.json" ≡ ".json"
unfolding ext
last_extension = refl

-- All characters but the first.
tail_length : String → ℕ
tail_length [] = 0
tail_length (c ∷ []) = 0
tail_length (c ∷ (d ∷ ds)) = suc (tail_length (d ∷ ds))

-- `skip` characters belong to an occurrence that has been replaced.
replace_from : String → String → ℕ → String → String
replace_from old new skip [] = []
replace_from old new (suc skip) (c ∷ cs) = replace_from old new skip cs
replace_from old new zero (c ∷ cs) =
    let replaced = new ++ replace_from old new (tail_length old) cs in
    let kept = c ∷ replace_from old new zero cs in
    if has_prefix (c ∷ cs) old then replaced else kept

-- strings.ReplaceAll, for a nonempty `old`: occurrences from left to right that do not overlap.
unfoldable pub replace_all : String → String → String → String
unfolding replace_from has_prefix tail_length
replace_all s old new = replace_from old new zero s

-- strings.Join(ids, ",")
unfoldable pub join_comma : List String → String
join_comma List.[] = ""
join_comma (List.◌∷◌ s List.[]) = s
join_comma (List.◌∷◌ s (List.◌∷◌ t ts)) = s ++ "," ++ join_comma (List.◌∷◌ t ts)

replaced_twice : replace_all "a ${x} ${x}$" "${x}" "ok" ≡ "a ok ok$"
unfolding replace_all
replaced_twice = refl

-- strings.Join(texts, separator)
unfoldable pub join_with : String → List String → String
join_with separator List.[] = ""
join_with separator (List.◌∷◌ s List.[]) = s
join_with separator (List.◌∷◌ s (List.◌∷◌ t ts)) =
    s ++ separator ++ join_with separator (List.◌∷◌ t ts)

-- The decimal digits of a number, as %d prints them.
nth : ℕ → String → String
nth n [] = []
nth zero (c ∷ cs) = c ∷ []
nth (suc n) (c ∷ cs) = nth n cs

digit : ℕ → String
unfolding nth
digit n = nth n "0123456789"

digits_from : ℕ → ℕ → String
digits_from zero n = ""
digits_from (suc fuel) n =
    let more = digits_from fuel (n / 10) in if ltb n 10 then digit n else more ++ digit (n % 10)

unfoldable pub decimal : ℕ → String
unfolding digits_from digit
decimal n = digits_from (suc n) n

ten_twenty : decimal 1020 ≡ "1020"
unfolding decimal
ten_twenty = refl
