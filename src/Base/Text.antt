-- ===== src/Base/Text.antt =====
-- C strings as lists of byte values, and the functions of <string.h> that the programs call.
use Prim.Native.Nat.{ℕ, ◌≤◌, compare, Ordering}
use Prim.Native.Nat.Ordering.{lt, eq, gt}
use Prim.Native.Char.{code}
use Prim.Native.String.{String}
use mathlib.Core.Path.{◌≡◌, refl}
use mathlib.Core.Logic.{◌↔◌, ◌≢◌}
use mathlib.Core.Bool.{Bool, true, false, ◌&&◌}
use mathlib.Core.List.{List, [], ◌∷◌}
use mathlib.Core.Option.{Option, none, some}
use native.Mathlib.Omega.{arith}
use eltex_summer.Base.Tests.{◌==◌, if◌then◌else◌}
use eltex_summer.Base.Lists.{length, All}

abbrev pub Bytes : Type 0
Bytes = List ℕ

-- The bytes of a string literal.
abbrev pub codes : String → Bytes
codes String.[] = []
codes (String.◌∷◌ c s) = code c ∷ codes s

-- The sign of `strcmp`, on bytes read as `unsigned char`.
abbrev pub strcmp : Bytes → Bytes → Ordering
strcmp [] [] = eq
strcmp [] (y ∷ ys) = lt
strcmp (x ∷ xs) [] = gt
strcmp (x ∷ xs) (y ∷ ys) = elim (compare x y) [ eq ↦ strcmp xs ys | lt ↦ lt | gt ↦ gt ]

-- `strcmp(a, b) == 0`
unfoldable pub str_eq : Bytes → Bytes → Bool
str_eq [] [] = true
str_eq [] (y ∷ ys) = false
str_eq (x ∷ xs) [] = false
str_eq (x ∷ xs) (y ∷ ys) = (x == y) && str_eq xs ys

-- `strncmp(s, p, strlen(p)) == 0`
unfoldable pub starts_with : Bytes → Bytes → Bool
starts_with s [] = true
starts_with [] (p ∷ ps) = false
starts_with (c ∷ s) (p ∷ ps) = (c == p) && starts_with s ps

-- The bytes in front of the first `stop`: what writing 0 over that byte leaves.
unfoldable pub cut_at : ℕ → Bytes → Bytes
cut_at stop [] = []
cut_at stop (c ∷ s) = if c == stop then [] else c ∷ cut_at stop s

-- The string that a buffer holds ends before its first zero byte.
abbrev pub c_str : Bytes → Bytes
c_str = cut_at 0

-- `strchr`: what stands in front of the first `stop` and behind it, if it occurs.
unfoldable pub split_at : ℕ → Bytes → Option (Bytes × Bytes)
split_at stop [] = none
split_at stop (c ∷ s) =
    if c == stop
    then some ([], s)
    else elim (split_at stop s) [ none ↦ none | some (a, b) ↦ some (c ∷ a, b) ]

-- `strstr`: the text from the first place on where the other one stands
unfoldable pub find_text : Bytes → Bytes → Option Bytes
find_text s [] = some s
find_text [] (p ∷ ps) = none
find_text (c ∷ s) (p ∷ ps) =
    if starts_with (c ∷ s) (p ∷ ps) then some (c ∷ s) else find_text s (p ∷ ps)

abbrev pub Without : ℕ → Bytes → Type 0
Without b = All (λ c. c ≢ b)

pub str_eq_iff : (a b : Bytes) → (str_eq a b ≡ true) ↔ (a ≡ b)
unfolding str_eq
str_eq_iff [] [] = ((λ _. refl), λ _. refl)
str_eq_iff [] (y ∷ ys) = ((λ e. cc), λ e. cc)
str_eq_iff (x ∷ xs) [] = ((λ e. cc), λ e. cc)
str_eq_iff (x ∷ xs) (y ∷ ys) = ground (arith, str_eq_iff xs ys)

pub str_eq_refl : (a : Bytes) → str_eq a a ≡ true
str_eq_refl a = (str_eq_iff a a).1 refl

pub cut_at-Without : (b : ℕ) (s : Bytes) → Without b (cut_at b s)
unfolding cut_at
cut_at-Without b [] = tt
cut_at-Without b (c ∷ s) = ground (arith, cut_at-Without b s)

pub cut_at_keeps_Without : (b d : ℕ) (s : Bytes) → Without d s → Without d (cut_at b s)
unfolding cut_at
cut_at_keeps_Without b d [] h = tt
cut_at_keeps_Without b d (c ∷ s) h = ground (arith, cut_at_keeps_Without b d s h.1)

pub cut_at_of_Without : (b : ℕ) (s : Bytes) → Without b s → cut_at b s ≡ s
unfolding cut_at
cut_at_of_Without b [] h = refl
cut_at_of_Without b (c ∷ s) h = ground (arith, cut_at_of_Without b s h.1)

pub length-cut_at : (b : ℕ) (s : Bytes) → length (cut_at b s) ≤ length s
unfolding cut_at
length-cut_at b [] = omega arith
length-cut_at b (c ∷ s) = ground (arith, length-cut_at b s)
