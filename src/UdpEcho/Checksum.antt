-- ===== src/UdpEcho/Checksum.antt =====
-- The checksum of RFC 768, on data of even length, and what goes wrong on data of odd length.
use eltex_summer.Base.{
  ℕ, ◌+◌, ◌*◌, ◌<◌, ◌≡◌, refl, ap, none, some, List, [], ◌∷◌, ◌++◌, Bytes, All, length,
  length-append, arith,
}
use eltex_summer.UdpEcho.{
  ntohs, add_word, add_words, data_words, odd_byte, Headers, pseudo_words, header_words,
  udp_checksum, odd_word, add_odd,
}

pub total : List ℕ → ℕ
total [] = 0
total (w ∷ ws) = w + total ws

abbrev pub Words : List ℕ → Type 0
Words = All (λ w. w < 65536)

-- A sum with the carries taken back in: it differs from the plain sum by a multiple of 65535, fits
-- 16 bits, and is 0 only where the plain sum is.
record Folded (sum plain : ℕ) : Type 0 where
  carries : ℕ
  congruent : sum + 65535 * carries ≡ plain
  fits : sum < 65536
  positive : 0 < plain → 0 < sum

add_words-append :
    (xs ys : List ℕ) (sum : ℕ) → add_words sum (xs ++ ys) ≡ add_words (add_words sum xs) ys
unfolding add_words
add_words-append [] ys sum = refl
add_words-append (x ∷ xs) ys sum = add_words-append xs ys (add_word sum x)

total-append : (xs ys : List ℕ) → total (xs ++ ys) ≡ total xs + total ys
unfolding total
total-append [] ys = omega arith
total-append (x ∷ xs) ys = omega (arith, total-append xs ys)

abbrev pub IsBytes : Bytes → Type 0
IsBytes = All (λ c. c < 256)

-- Every field fits its 16 bits.
pub record IsHeaders (h : Headers) : Type 0 where
  pub saddr_high : h.saddr_high < 65536
  pub saddr_low : h.saddr_low < 65536
  pub daddr_high : h.daddr_high < 65536
  pub daddr_low : h.daddr_low < 65536
  pub source : h.source < 65536
  pub dest : h.dest < 65536
  pub len : h.len < 65536
  pub check : h.check < 65536

-- All words that the receiver of a datagram sums up.
pub datagram_words : Headers → Bytes → List ℕ
datagram_words h data_ = pseudo_words h (8 + length data_) ++ header_words h ++ data_words data_

odd_byte-append :
    (data_ : Bytes) (x : ℕ) → odd_byte data_ ≡ none → odd_byte (data_ ++ x ∷ []) ≡ some x
unfolding odd_byte
odd_byte-append [] x e = refl
odd_byte-append (y ∷ []) x e = cc
odd_byte-append (y ∷ z ∷ data_) x e = odd_byte-append data_ x e

data_words-append :
    (data_ : Bytes) (x : ℕ)
    → odd_byte data_ ≡ none
    → data_words (data_ ++ x ∷ []) ≡ data_words data_
unfolding odd_byte data_words
data_words-append [] x e = refl
data_words-append (y ∷ []) x e = cc
data_words-append (y ∷ z ∷ data_) x e =
    ap (λ ws. ntohs (y + 256 * z) ∷ ws) (data_words-append data_ x e)

-- The defect: on data of odd length the checksum does not depend on the last byte, so that a change
-- of it goes unnoticed.
pub udp_checksum_ignores_last :
    (h : Headers) (data_ : Bytes) (x y behind : ℕ)
    → odd_byte data_ ≡ none
    → x < 256
    → y < 256
    → udp_checksum h (data_ ++ x ∷ []) behind ≡ udp_checksum h (data_ ++ y ∷ []) behind
unfolding udp_checksum add_odd
udp_checksum_ignores_last h data_ x y behind e hx hy =
    let odd : odd_word x behind ≡ odd_word y behind = ap ntohs (omega arith) in
    rw (
      length-append data_ (x ∷ []),
      length-append data_ (y ∷ []),
      data_words-append data_ x e,
      data_words-append data_ y e,
      odd_byte-append data_ x e,
      odd_byte-append data_ y e,
      odd,
    )
