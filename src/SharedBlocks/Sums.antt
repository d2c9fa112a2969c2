-- ===== src/SharedBlocks/Sums.antt =====
-- Sums over the blocks and the consumers, and how `take_first` and the loop over the numbers change them.
use eltex_summer.Base.{
  ℕ, zero, suc, ◌+◌, ◌-◌, ◌<◌, ◌≡◌, refl, ap, subst, ◌⊎◌, false, some, List, [], ◌∷◌, ◌++◌, ltb,
  if◌then◌else◌, length, take_all, set, get_elem?, replicate, All, arith,
}
use eltex_summer.SharedBlocks.{Node, Consumer, ConsumerAt, BlockReport, min_max, process}

unfoldable pub sum_of {ℓ} : {A : Type ℓ} → (A → ℕ) → List A → ℕ
sum_of w [] = 0
sum_of w (x ∷ xs) = w x + sum_of w xs

module _ {ℓ} {A : Type ℓ} (w : A → ℕ) where
  pub sum_of-append : (xs ys : List A) → sum_of w (xs ++ ys) ≡ sum_of w xs + sum_of w ys
  unfolding sum_of
  sum_of-append [] ys = omega arith
  sum_of-append (x ∷ xs) ys = omega (arith, sum_of-append xs ys)

  pub sum_of-set :
      (xs : List A) (i : ℕ) (x y : A)
      → get_elem? xs i ≡ some x
      → sum_of w (set xs i y) + w x ≡ sum_of w xs + w y
  unfolding sum_of
  sum_of-set [] i x y e = absurd (cc)
  sum_of-set (z ∷ xs) zero x y e = let same : z ≡ x = cc in omega (arith, ap w same)
  sum_of-set (z ∷ xs) (suc i) x y e = omega (arith, sum_of-set xs i x y e)

  pub sum_of-replicate : (n : ℕ) (x : A) → w x ≡ 0 → sum_of w (replicate n x) ≡ 0
  unfolding sum_of
  sum_of-replicate zero x e = refl
  sum_of-replicate (suc n) x e = omega (arith, sum_of-replicate n x e)

module _ {ℓ} {A : Type ℓ} (P : A → Type 0) where
  pub All-get : (xs : List A) (i : ℕ) (x : A) → get_elem? xs i ≡ some x → All P xs → P x
  All-get [] i x e h = absurd (cc)
  All-get (z ∷ xs) zero x e h = let same : z ≡ x = cc in subst P same h.0
  All-get (z ∷ xs) (suc i) x e h = All-get xs i x e h.1

  pub All-set : (xs : List A) (i : ℕ) (y : A) → P y → All P xs → All P (set xs i y)
  All-set [] i y p h = tt
  All-set (z ∷ xs) zero y p h = (p, h.1)
  All-set (z ∷ xs) (suc i) y p h = (h.0, All-set xs i y p h.1)

  pub All-replicate : (n : ℕ) (x : A) → P x → All P (replicate n x)
  All-replicate zero x p = tt
  All-replicate (suc n) x p = (p, All-replicate n x p)

-- The line that is to be printed for the numbers of a block: how many, the least and the greatest.
unfoldable pub summary : List ℕ → BlockReport
summary [] = record { count = 0; min_val = 0; max_val = 0 }
summary (x ∷ xs) = record {
  count = suc (length xs);
  min_val = (min_max x x xs).0;
  max_val = (min_max x x xs).1;
}

-- A block that is still to be processed has the count of its numbers.
unfoldable pub IsBlock : Node → Type 0
IsBlock n = (0 < length n.data_) × ((n.count ≡ 0) ⊎ (n.count ≡ length n.data_))

pub process-summary :
    (data_ : List ℕ) → 0 < length data_ → process (length data_) data_ ≡ some (summary data_)
unfolding process summary
process-summary [] h = absurd (omega arith)
process-summary (x ∷ xs) h =
    rw (process, ltb-self (length xs), summary, take_all (length (x ∷ xs) - 1) xs (omega arith))
  where
    ltb-self : (n : ℕ) → ltb (suc n) (suc n) ≡ false
    ltb-self n = ground arith

module _ (w : BlockReport → ℕ) where
  unfoldable pub of_node : Node → ℕ
  of_node n = w (summary n.data_)

  -- What is left of it for a block with `count > 0`
  unfoldable pub of_pending : Node → ℕ
  of_pending n = if ltb 0 n.count then w (summary n.data_) else 0

  unfoldable pub held_at : ConsumerAt → ℕ
  held_at (ConsumerAt.holding count data_) = w (summary data_)
  held_at ConsumerAt.looking = 0
  held_at ConsumerAt.taking = 0
  held_at ConsumerAt.over = 0

  unfoldable pub of_held : Consumer → ℕ
  of_held c = held_at c.at
