-- ===== src/PipeCopy/Headers.antt =====
-- The header that the parent writes is read by the child as it is meant.
use eltex_summer.Base.{
  find_text, ℕ, ◌≤◌, ◌≡◌, ◌≢◌, refl, ap, ◌∙◌, false, none, some, [], ◌∷◌, ◌++◌, Bytes, codes, c_str,
  cut_at, Without, ◌==◌, starts_with, split_at, length, take_all, All-append, arith,
}
use eltex_summer.Base.Scan.{decimal, decimal-Without, is_digit}
use eltex_summer.PipeCopy.{header, split_header, parse_header}

cut_at-append : (b : ℕ) (s t : Bytes) → Without b s → cut_at b (s ++ b ∷ t) ≡ s
unfolding cut_at
cut_at-append b [] t h = ground arith
cut_at-append b (c ∷ s) t h = ground (arith, cut_at-append b s t h.1)

split_at-append : (b : ℕ) (s t : Bytes) → Without b s → split_at b (s ++ b ∷ t) ≡ some (s, t)
unfolding split_at
split_at-append b [] t h = ground arith
split_at-append b (c ∷ s) t h =
    let ne : (c == b) ≡ false = ground arith in rw (ne, split_at-append b s t h.1) refl

-- A name without '|', zero and "SIZE:" whose header fits into the 512 bytes for it
pub record IsName (name : Bytes) (size : ℕ) : Type 0 where
  pub no_bar : Without b'|' name
  pub no_zero : Without 0 name
  pub no_size : find_text name (codes "SIZE:") ≡ none
  pub short : length name ≤ 250
  pub fits : length (codes "FILE:" ++ (name ++ (codes "|SIZE:" ++ decimal size))) ≤ 511

abbrev pub header_text : Bytes → ℕ → Bytes
header_text name size = codes "FILE:" ++ (name ++ (codes "|SIZE:" ++ decimal size))

pub c_str-header :
    (name : Bytes) (size : ℕ) → IsName name size → c_str (header name size) ≡ header_text name size
unfolding header is_digit
c_str-header name size n =
    let tail : Without 0 (codes "|SIZE:" ++ decimal size) =
      All-append (λ c. c ≢ 0) (codes "|SIZE:") (decimal size) size_part
        (decimal-Without 0 size refl) in
    let mid : Without 0 (name ++ (codes "|SIZE:" ++ decimal size)) =
      All-append (λ c. c ≢ 0) name (codes "|SIZE:" ++ decimal size) n.no_zero tail in
    ap (λ t. c_str (t ++ 0 ∷ [])) (take_all 511 (header_text name size) n.fits)
    ∙ cut_at-append 0 (header_text name size) [] (
        All-append (λ c. c ≢ 0) (codes "FILE:") (name ++ (codes "|SIZE:" ++ decimal size)) file_part
          mid)
  where
    file_part : Without 0 (codes "FILE:")
    file_part = (omega arith, (omega arith, (omega arith, (omega arith, (omega arith, tt)))))

    size_part : Without 0 (codes "|SIZE:")
    size_part =
        (omega arith, (omega arith, (omega arith, (omega arith, (omega arith, (omega arith, tt))))))

-- Of the text of a header, the name and the size that the parent wrote: for a name without '|', zero and
-- "SIZE:" the child finds exactly this name, and the text "SIZE:" with the digits of the size.
pub parse_header-header_text :
    (name : Bytes) (size : ℕ)
    → IsName name size
    → parse_header (header_text name size) ≡ (some name, some (codes "SIZE:" ++ decimal size))
unfolding parse_header split_header find_text starts_with
parse_header-header_text name size n =
    let found : find_text (codes "FILE:" ++ name) (codes "SIZE:") ≡ none = n.no_size in
    ap (split_header (header_text name size))
      (split_at-append b'|' name (codes "SIZE:" ++ decimal size) n.no_bar)
    ∙ rw (split_header, found) refl
