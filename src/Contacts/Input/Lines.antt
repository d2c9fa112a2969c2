-- ===== src/Contacts/Input/Lines.antt =====
-- What the input loops return.
use eltex_summer.Base.{
  ℕ, zero, suc, ◌+◌, ◌-◌, ◌≤◌, ◌<◌, ◌≡◌, refl, ◌≢◌, [], ◌∷◌, ◌++◌, Bytes, c_str, cut_at, Without,
  length, arith,
}
use eltex_summer.Contacts.Input.{read_line, fgets, remove_n, read_field}

pub remove_n-cut_at : (s : Bytes) → remove_n s ≡ cut_at 10 s
unfolding remove_n cut_at
remove_n-cut_at [] = refl
remove_n-cut_at (c ∷ s) = ground (arith, remove_n-cut_at s)

length-read_line : (limit : ℕ) (s : Bytes) → length (read_line limit s).0 ≤ limit
unfolding read_line
length-read_line zero s = omega arith
length-read_line (suc limit) [] = omega arith
length-read_line (suc limit) (c ∷ s) = ground (arith, length-read_line limit s)

-- A line that fits comes back whole, with its newline.
read_line-newline :
    (limit : ℕ) (line rest : Bytes)
    → Without 10 line
    → length line < limit
    → read_line limit (line ++ 10 ∷ rest) ≡ (line ++ 10 ∷ [], rest)
unfolding read_line
read_line-newline zero line rest h k = absurd (omega arith)
read_line-newline (suc limit) [] rest h k = refl
read_line-newline (suc limit) (c ∷ line) rest h k =
    ground (arith, read_line-newline limit line rest h.1 (omega arith))

cut_at-append : (b : ℕ) (line : Bytes) → Without b line → cut_at b (line ++ b ∷ []) ≡ line
unfolding cut_at
cut_at-append b [] h = ground arith
cut_at-append b (c ∷ line) h = ground (arith, cut_at-append b line h.1)

c_str-append : (line : Bytes) → Without 0 line → c_str (line ++ 10 ∷ []) ≡ line ++ 10 ∷ []
unfolding cut_at
c_str-append [] h = refl
c_str-append (c ∷ line) h = ground (arith, c_str-append line h.1)

fgets-read_line :
    (size : ℕ) (field s : Bytes)
    → s ≢ []
    → fgets size field s ≡ (c_str (read_line (size - 1) s).0, (read_line (size - 1) s).1)
unfolding fgets
fgets-read_line size field [] h = absurd (h refl)
fgets-read_line size field (c ∷ s) h = refl

append-cons-ne-nil : (xs ys : Bytes) (c : ℕ) → xs ++ c ∷ ys ≢ []
append-cons-ne-nil [] ys c e = cc
append-cons-ne-nil (x ∷ xs) ys c e = cc

pub fgets-newline :
    (size : ℕ) (field line rest : Bytes)
    → Without 10 line
    → Without 0 line
    → length line + 1 < size
    → fgets size field (line ++ 10 ∷ rest) ≡ (line ++ 10 ∷ [], rest)
fgets-newline size field line rest h z k = rw (
  fgets-read_line size field (line ++ 10 ∷ rest) (append-cons-ne-nil line rest 10),
  read_line-newline (size - 1) line rest h (omega arith),
  c_str-append line z,
)

-- A line that fits its field is read as it was typed, whatever the field held before.
pub read_field-newline :
    (size : ℕ) (field line rest : Bytes)
    → Without 10 line
    → Without 0 line
    → length line + 1 < size
    → read_field size field (line ++ 10 ∷ rest) ≡ (line, rest)
unfolding read_field
read_field-newline size field line rest h z k = rw (
  fgets-read_line size field (line ++ 10 ∷ rest) (append-cons-ne-nil line rest 10),
  read_line-newline (size - 1) line rest h (omega arith),
  c_str-append line z,
  remove_n-cut_at,
  cut_at-append 10 line h,
)
