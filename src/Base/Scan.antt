-- ===== src/Base/Scan.antt =====
-- Numbers in texts: `atoi`, `sscanf("%d")` and the printing of `%d`.
use Prim.Native.Nat.{ℕ, zero, suc, ◌+◌, ◌-◌, ◌*◌, ◌/◌, ◌%◌, ◌^◌, ◌<◌, ◌≤◌}
use mathlib.Core.Path.{◌≡◌, refl, ap, ◌∙◌}
use mathlib.Core.Logic.{inl, inr, ◌≢◌}
use mathlib.Core.Bool.{Bool, true, false, ◌&&◌, ◌||◌}
use mathlib.Core.List.{[], ◌∷◌, ◌++◌}
use mathlib.Core.Option.{Option, none, some}
use native.Mathlib.Omega.{arith}
use eltex_summer.Base.Tests.{ltb, leb, ◌==◌, if◌then◌else◌, ◌>>=◌, Bool-cases}
use eltex_summer.Base.Lists.{All, All-append, All-mono, length, length-append}
use eltex_summer.Base.Text.{Bytes, Without}
use eltex_summer.Base.Int.{ℤ, pos, negsuc, to_int, to_int-pos}

unfoldable pub is_space : ℕ → Bool
is_space c = (c == 32) || (leb 9 c && leb c 13)

unfoldable pub skip_spaces : Bytes → Bytes
skip_spaces [] = []
skip_spaces (c ∷ s) = if is_space c then skip_spaces s else c ∷ s

unfoldable pub is_digit : ℕ → Bool
is_digit c = leb b'0' c && leb c b'9'

-- The digits at the front, behind those read before.
unfoldable pub scan_digits : ℕ → Bytes → ℕ
scan_digits n [] = n
scan_digits n (c ∷ s) = if is_digit c then scan_digits (n * 10 + (c - b'0')) s else n

unfoldable pub scan_natural : Bytes → Option ℕ
unfolding scan_digits is_digit
scan_natural [] = none
scan_natural (c ∷ s) = if is_digit c then some (scan_digits 0 (c ∷ s)) else none

abbrev pub negate : ℕ → ℤ
negate zero = pos 0
negate (suc n) = negsuc n

scan_sign : Bytes → Option ℤ
unfolding scan_natural
scan_sign [] = none
scan_sign (c ∷ s) =
    if c == b'-'
    then (scan_natural s >>= λ n. some (negate n))
    else if c == b'+'
    then (scan_natural s >>= λ n. some (pos n))
    else (scan_natural (c ∷ s) >>= λ n. some (pos n))

-- The number that `%d` finds at the front of a text, behind spaces.
unfoldable pub scan_signed : Bytes → Option ℤ
unfolding scan_sign skip_spaces is_space
scan_signed s = scan_sign (skip_spaces s)

-- `atoi`, for texts whose number is an `int`
unfoldable pub atoi : Bytes → ℤ
atoi s = elim (scan_signed s) [ none ↦ pos 0 | some n ↦ n ]

-- `atoi` for any text: `strtol` stops at the greatest and the least `long`, the result is cut down to an `int`.
unfoldable pub to_long : ℤ → ℤ
to_long (pos n) = pos (if leb (2 ^ 63) n then 2 ^ 63 - 1 else n)
to_long (negsuc n) = negsuc (if leb (2 ^ 63) n then 2 ^ 63 - 1 else n)

unfoldable pub atoi_int : Bytes → ℤ
atoi_int s = to_int (to_long (atoi s))

decimal_digits : ℕ → ℕ → Bytes
decimal_digits zero n = []
decimal_digits (suc fuel) n =
    let rest = decimal_digits fuel (n / 10) ++ (b'0' + n % 10) ∷ [] in
    if ltb n 10 then (b'0' + n) ∷ [] else rest

-- `%d` of a number that is not negative.
unfoldable pub decimal : ℕ → Bytes
unfolding decimal_digits
decimal n = decimal_digits (suc n) n

scan_digits-append :
    (d : ℕ) (s : Bytes) (acc : ℕ)
    → All (λ c. is_digit c ≡ true) s
    → d < 10
    → scan_digits acc (s ++ (b'0' + d) ∷ []) ≡ scan_digits acc s * 10 + d
unfolding scan_digits is_digit
scan_digits-append d [] acc h k = ground arith
scan_digits-append d (c ∷ s) acc h k =
    rw (h.0, scan_digits) (scan_digits-append d s (acc * 10 + (c - b'0')) h.1 k)

decimal_digits-All : (fuel n : ℕ) → n < fuel → All (λ c. is_digit c ≡ true) (decimal_digits fuel n)
unfolding decimal_digits is_digit
decimal_digits-All zero n h = tt
decimal_digits-All (suc fuel) n h = elim (Bool-cases (ltb n 10)) [
  | inl small ↦ rw small (ground arith, tt)
  | inr big ↦ rw big (
      All-append (λ c. is_digit c ≡ true) (decimal_digits fuel (n / 10)) ((b'0' + n % 10) ∷ [])
        (decimal_digits-All fuel (n / 10) (ground arith)) (ground arith, tt))
]

scan_digits-decimal_digits : (fuel n : ℕ) → n < fuel → scan_digits 0 (decimal_digits fuel n) ≡ n
unfolding decimal_digits scan_digits is_digit
scan_digits-decimal_digits zero n h = elim h [ ]
scan_digits-decimal_digits (suc fuel) n h = elim (Bool-cases (ltb n 10)) [
  | inl small ↦ rw small (ground arith)
  | inr big ↦
      let l : n / 10 < fuel = ground arith in
      rw
        (
          big,
          scan_digits-append (n % 10) (decimal_digits fuel (n / 10)) 0
              (decimal_digits-All fuel (n / 10) l) (omega arith),
          scan_digits-decimal_digits fuel (n / 10) l,
        )
        (omega arith)
]

pub decimal-All : (n : ℕ) → All (λ c. is_digit c ≡ true) (decimal n)
unfolding decimal
decimal-All n = decimal_digits-All (suc n) n (omega arith)

decimal_digits_ne : (fuel n : ℕ) → n < fuel → decimal_digits fuel n ≢ []
unfolding decimal_digits
decimal_digits_ne zero n h e = elim h [ ]
decimal_digits_ne (suc fuel) n h e = elim (Bool-cases (ltb n 10)) [
  | inl small ↦ let k = rw small at e in cc
  | inr big ↦ snoc_ne (decimal_digits fuel (n / 10)) (b'0' + n % 10) (rw big at e)
]
  where
    snoc_ne : (s : Bytes) (c : ℕ) → s ++ c ∷ [] ≢ []
    snoc_ne [] c e = cc
    snoc_ne (x ∷ s) c e = cc

scan_signed_digits :
    (s : Bytes)
    → All (λ c. is_digit c ≡ true) s
    → s ≢ []
    → scan_signed s ≡ some (pos (scan_digits 0 s))
unfolding scan_signed is_digit
scan_signed_digits [] h ne = absurd (ne refl)
scan_signed_digits (c ∷ s) h ne = ground arith

decimal-ne-nil : (n : ℕ) → decimal n ≢ []
unfolding decimal
decimal-ne-nil n = decimal_digits_ne (suc n) n (omega arith)

scan_digits-decimal : (n : ℕ) → scan_digits 0 (decimal n) ≡ n
unfolding decimal
scan_digits-decimal n = scan_digits-decimal_digits (suc n) n (omega arith)

-- A printed number is read back.
pub atoi-decimal : (n : ℕ) → atoi (decimal n) ≡ pos n
unfolding atoi
atoi-decimal n =
    rw (scan_signed_digits (decimal n) (decimal-All n) (decimal-ne-nil n), atoi)
      (ap pos (scan_digits-decimal n))

pub decimal-Without : (b n : ℕ) → is_digit b ≡ false → Without b (decimal n)
decimal-Without b n h =
    All-mono (λ c. is_digit c ≡ true) (λ c. c ≢ b) (decimal n) (λ c d. ground (arith, ap is_digit))
      (decimal-All n)

-- The same of `sscanf`.
pub scan_signed-decimal : (n : ℕ) → scan_signed (decimal n) ≡ some (pos n)
scan_signed-decimal n =
    scan_signed_digits (decimal n) (decimal-All n) (decimal-ne-nil n)
    ∙ ap (λ m. some (pos m)) (scan_digits-decimal n)

pub atoi_int-decimal : (n : ℕ) → n < 2 ^ 31 → atoi_int (decimal n) ≡ pos n
unfolding atoi_int to_long
atoi_int-decimal n h =
    let small : leb (2 ^ 63) n ≡ false = ground arith in
    rw (atoi-decimal n, to_long, small) (to_int-pos n h)

abbrev pow10 : ℕ → ℕ
pow10 zero = 1
pow10 (suc k) = 10 * pow10 k

decimal_digits-length : (k fuel n : ℕ) → n < pow10 (suc k) → length (decimal_digits fuel n) ≤ suc k
unfolding decimal_digits
decimal_digits-length k zero n h = omega arith
decimal_digits-length zero (suc fuel) n h =
    let e : ltb n 10 ≡ true = ground arith in rw (e) omega arith
decimal_digits-length (suc k) (suc fuel) n h = elim (Bool-cases (ltb n 10)) [
  | inl e ↦ rw (e) omega arith
  | inr e ↦ rw (e) (
      omega (
        arith,
        length-append (decimal_digits fuel (n / 10)) ((b'0' + n % 10) ∷ []),
        decimal_digits-length k fuel (n / 10) (omega arith),
      ))
]

-- An `int` that is not negative has at most ten digits.
pub length-decimal : (n : ℕ) → n < 2 ^ 31 → length (decimal n) ≤ 10
unfolding decimal
length-decimal n h = decimal_digits-length 9 (suc n) n (omega arith)
