-- ===== src/SharedBlocks/Memory.antt =====
-- When the producer writes beyond the memory, and what the consumers read of its blocks.
use eltex_summer.Base.{
  ℕ, suc, ◌+◌, ◌-◌, ◌*◌, ◌%◌, ◌^◌, ◌≤◌, ◌<◌, ◌≡◌, refl, sym, ap, ◌⊎◌, inl, inr, ◌↔◌, Bool, true,
  false, get_elem?, none, some, List, [], ◌∷◌, ltb, if◌then◌else◌, length, All, arith,
}
use eltex_summer.SharedBlocks.{
  SharedMemory, Producer, BlockReport, min_max, process, remaining, create, start_block,
}
use eltex_summer.SharedBlocks.Sums.{summary, process-summary}

pub remaining_eq :
    (total used : ℕ) → total < 2 ^ 64 → used ≤ total → remaining total used ≡ total - used
unfolding remaining
remaining_eq total used h l = omega arith

-- At the head of the loop, with a count of `r % 50 + 20`: the producer writes beyond the end of the memory
-- exactly if at least 12 bytes more than the numbers take are left after `used_memory`, but less than
-- 72 bytes more. The memory is smaller than 2^64 bytes, and `used_memory` is not beyond its size.
pub start_block-none :
    (r : ℕ) (rand : ℕ → ℕ) (p : Producer) (shm : SharedMemory)
    → shm.total_size < 2 ^ 64
    → p.used_memory ≤ shm.total_size
    → (start_block r rand p shm ≡ none) ↔ (
        (p.used_memory + 12 + (r % 50 + 20) * 4 ≤ shm.total_size)
        × (shm.total_size < p.used_memory + 72 + (r % 50 + 20) * 4))
unfolding start_block remaining create
start_block-none r rand p shm h l =
    rw (remaining_eq shm.total_size p.used_memory h l) (ground arith)

-- A number between the least and the greatest one
unfoldable pub IsBetween : ℕ → ℕ → ℕ → Type 0
IsBetween low high x = (low ≤ x) × (x ≤ high)

min_max_mono :
    (low high : ℕ) (xs : List ℕ)
    → ((min_max low high xs).0 ≤ low) × (high ≤ (min_max low high xs).1)
unfolding min_max
min_max_mono low high [] = (omega arith, omega arith)
min_max_mono low high (x ∷ xs) =
    let (a, b) = min_max_mono (if ltb x low then x else low) (if ltb high x then x else high) xs in
    ground (arith, a, b)

min_max-IsBetween :
    (low high : ℕ) (xs : List ℕ)
    → All (IsBetween (min_max low high xs).0 (min_max low high xs).1) xs
unfolding min_max IsBetween
min_max-IsBetween low high [] = tt
min_max-IsBetween low high (x ∷ xs) =
    let (a, b) = min_max_mono (if ltb x low then x else low) (if ltb high x then x else high) xs in
    (
      (ground (arith, a, b), ground (arith, a, b)),
      min_max-IsBetween (if ltb x low then x else low) (if ltb high x then x else high) xs,
    )

-- A number at some index
unfoldable pub IsEntry : ℕ → List ℕ → Type 0
IsEntry m xs = (i : ℕ) × (get_elem? xs i ≡ some m)

-- What was IsEntry-cons of two numbers, and what was found after it in the rest
IsEntry-cons :
    (m old x : ℕ) (b : Bool) (xs : List ℕ)
    → ((m ≡ (if b then x else old)) ⊎ IsEntry m xs)
    → (m ≡ old) ⊎ IsEntry m (x ∷ xs)
unfolding IsEntry
IsEntry-cons m old x true xs (inl e) = inr (0, ap some (sym e))
IsEntry-cons m old x false xs (inl e) = inl e
IsEntry-cons m old x b xs (inr h) = inr (suc h.0, h.1)

min_max-IsEntry :
    (low high : ℕ) (xs : List ℕ)
    → (((min_max low high xs).0 ≡ low) ⊎ IsEntry (min_max low high xs).0 xs)
      × (((min_max low high xs).1 ≡ high) ⊎ IsEntry (min_max low high xs).1 xs)
unfolding min_max
min_max-IsEntry low high [] = (inl refl, inl refl)
min_max-IsEntry low high (x ∷ xs) =
    let (a, b) =
      min_max-IsEntry (if ltb x low then x else low) (if ltb high x then x else high) xs in
    (IsEntry-cons _ low x (ltb x low) xs a, IsEntry-cons _ high x (ltb high x) xs b)

-- Of a block with numbers: the line for it has their count, a least and a greatest value between which
-- all of them lie, and both values are among them.
pub process-IsBetween :
    (data_ : List ℕ)
    → 0 < length data_
    → (r : BlockReport) × (process (length data_) data_ ≡ some r)
      × (r.count ≡ length data_)
      × All (IsBetween r.min_val r.max_val) data_
      × IsEntry r.min_val data_
      × IsEntry r.max_val data_
unfolding summary IsBetween IsEntry
process-IsBetween [] h = absurd (omega arith)
process-IsBetween (x ∷ xs) h =
    let (a, b) = min_max_mono x x xs in
    let (c, d) = min_max-IsEntry x x xs in
    (
      summary (x ∷ xs),
      process-summary (x ∷ xs) h,
      refl,
      ((a, b), min_max-IsBetween x x xs),
      found _ x xs c,
      found _ x xs d,
    )
  where
    found : (m x : ℕ) (xs : List ℕ) → ((m ≡ x) ⊎ IsEntry m xs) → IsEntry m (x ∷ xs)
    found m x xs (inl e) = (0, ap some (sym e))
    found m x xs (inr h) = (suc h.0, h.1)
