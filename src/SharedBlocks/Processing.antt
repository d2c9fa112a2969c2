-- ===== src/SharedBlocks/Processing.antt =====
-- What every turn of the producer and of the consumers keeps.
use eltex_summer.Base.{
  ℕ, zero, suc, ◌+◌, ◌*◌, ◌%◌, ◌<◌, ◌≡◌, refl, ap, inl, inr, true, false, not, ◌&&◌, Option, none,
  some, List, [], ◌∷◌, ltb, ◌>>=◌, length, All, All-append, All-mono, lt→ltb, Bool-cases, arith,
}
use eltex_summer.SharedBlocks.{
  Node, SharedMemory, Consumer, ConsumerAt, Producer, ProducerAt, BlockReport, System,
  has_unprocessed, take_first, remaining, fill, create, finish, start_block, check_blocks,
  produce_from,
}
use eltex_summer.SharedBlocks.Sums.{sum_of, sum_of-append, IsBlock, of_node, of_pending, of_held}

-- No block is left, and none will come.
unfoldable pub IsDone : SharedMemory → Type 0
IsDone shm = (shm.producer_finished ≡ true) × (has_unprocessed shm.nodes ≡ false)

-- A consumer holds a block with the count of its numbers; one that has ended found no more work.
unfoldable pub IsFairAt : SharedMemory → ConsumerAt → Type 0
IsFairAt shm ConsumerAt.looking = Unit
IsFairAt shm ConsumerAt.taking = Unit
IsFairAt shm (ConsumerAt.holding count data_) = (0 < length data_) × (count ≡ length data_)
IsFairAt shm ConsumerAt.over = IsDone shm

unfoldable pub IsFair : SharedMemory → Consumer → Type 0
IsFair shm c = IsFairAt shm c.at

pub IsFairAt-mono :
    (shm after : SharedMemory)
    → (IsDone shm → IsDone after)
    → (a : ConsumerAt) → IsFairAt shm a
    → IsFairAt after a
unfolding IsFairAt
IsFairAt-mono shm after f ConsumerAt.looking h = tt
IsFairAt-mono shm after f ConsumerAt.taking h = tt
IsFairAt-mono shm after f (ConsumerAt.holding count data_) h = h
IsFairAt-mono shm after f ConsumerAt.over h = f h

pub IsFair-all :
    (shm after : SharedMemory)
    → (IsDone shm → IsDone after)
    → (cs : List Consumer) → All (IsFair shm) cs
    → All (IsFair after) cs
unfolding IsFair
IsFair-all shm after f cs =
    All-mono (IsFair shm) (IsFair after) cs (λ c h. IsFairAt-mono shm after f c.at h)

-- The lines printed, the blocks held and the blocks with `count > 0` are together the blocks created.
unfoldable pub IsComplete : System → Type 0
IsComplete s =
    (w : BlockReport → ℕ)
    → sum_of (of_node w) s.shm.nodes
      ≡ sum_of w s.reports + sum_of (of_held w) s.consumers + sum_of (of_pending w) s.shm.nodes

pub record IsValid (s : System) : Type 0 where
  pub blocks : All IsBlock s.shm.nodes
  pub finished : s.shm.producer_finished ≡ true → s.producer.at ≡ ProducerAt.over
  pub fair : All (IsFair s.shm) s.consumers
  pub complete : IsComplete s

-- What `take_first` gives
pub record Taken (nodes : List Node) (n : Node) (after : List Node) : Type 0 where
  pub unprocessed : has_unprocessed nodes ≡ true
  pub block : (0 < length n.data_) × (n.count ≡ length n.data_)
  pub blocks : All IsBlock after
  pub nothing_new : (w : BlockReport → ℕ) → sum_of (of_node w) after ≡ sum_of (of_node w) nodes
  pub one_less :
      (w : BlockReport → ℕ)
      → sum_of (of_pending w) nodes ≡ of_node w n + sum_of (of_pending w) after

unfoldable pub IsTaken : List Node → Option (Node × List Node) → Type 0
IsTaken nodes none = has_unprocessed nodes ≡ false
IsTaken nodes (some (n, after)) = Taken nodes n after

skip :
    (m : Node) (nodes : List Node) (o : Option (Node × List Node))
    → ltb 0 m.count ≡ false
    → IsBlock m
    → IsTaken nodes o
    → IsTaken (m ∷ nodes) (o >>= λ (n, rest). some (n, m ∷ rest))
unfolding IsTaken has_unprocessed of_node of_pending sum_of
skip m nodes none q b t = rw (q) t
skip m nodes (some (n, after)) q b t = record {
  unprocessed = rw (q) t.unprocessed;
  block = t.block;
  blocks = (b, t.blocks);
  nothing_new = λ w. omega (arith, t.nothing_new w);
  one_less = λ w. rw (q) omega (arith, t.one_less w);
}

pub take_first-IsTaken : (nodes : List Node) → All IsBlock nodes → IsTaken nodes (take_first nodes)
unfolding take_first IsTaken has_unprocessed IsBlock of_node of_pending sum_of
take_first-IsTaken [] h = refl
take_first-IsTaken (m ∷ nodes) h = elim (Bool-cases (ltb 0 m.count)) [
  | inl p ↦ rw (p) (record {
    unprocessed = rw (p) refl;
    block = (h.0.0, elim h.0.1 [ inl z ↦ ground arith | inr e ↦ e ]);
    blocks = ((h.0.0, inl refl), h.1);
    nothing_new = λ w. refl;
    one_less = λ w. rw (p) omega arith;
  })
  | inr q ↦ rw (q) (skip m nodes (take_first nodes) q h.0 (take_first-IsTaken nodes h.1))
]

-- The producer's turns.
unfoldable pub IsKept : System → Option (Producer × SharedMemory) → Type 0
IsKept s none = Unit
IsKept s (some (p, shm)) = IsValid (record s { shm = shm; producer = p })

finish-IsKept : (s : System) → IsValid s → IsKept s (some (finish s.producer s.shm))
unfolding finish IsKept IsComplete IsDone
finish-IsKept s v = record {
  blocks = v.blocks;
  finished = λ e. refl;
  fair = IsFair-all s.shm _ (λ d. (refl, d.1)) s.consumers v.fair;
  complete = v.complete;
}

check_blocks-IsKept :
    (s : System)
    → IsValid s
    → s.producer.at ≡ ProducerAt.checking
    → IsKept s (some (check_blocks s.producer s.shm))
unfolding check_blocks IsKept IsComplete
check_blocks-IsKept s v here =
    elim (Bool-cases (not (has_unprocessed s.shm.nodes) && ltb 0 s.producer.block_count)) [
      | inl e ↦ rw (e) (record {
        blocks = v.blocks;
        finished = λ f. absurd (cc (here, v.finished f));
        fair = v.fair;
        complete = v.complete;
      })
      | inr e ↦ rw (e) (record {
        blocks = v.blocks;
        finished = λ f. absurd (cc (here, v.finished f));
        fair = v.fair;
        complete = v.complete;
      })
    ]

pub length-fill : (n : ℕ) (rand : ℕ → ℕ) → length (fill n rand) ≡ n
unfolding fill
length-fill zero rand = refl
length-fill (suc n) rand = ap suc (length-fill n (λ i. rand (suc i)))

create-IsKept :
    (s : System) (count : ℕ) (rand : ℕ → ℕ)
    → 0 < count
    → IsValid s
    → s.producer.at ≡ ProducerAt.creating
    → IsKept s (create count rand s.producer s.shm)
unfolding create IsKept IsComplete IsBlock of_node of_pending sum_of IsDone
create-IsKept s count rand pos v here =
    elim (Bool-cases (ltb s.shm.total_size (48 + s.producer.used_memory + 24 + count * 4))) [
      | inl e ↦ rw (e) tt
      | inr e ↦ rw (e) (record {
        blocks =
            All-append IsBlock s.shm.nodes _ v.blocks
              ((rw (length-fill count rand) pos, inr (rw (length-fill count rand) refl)), tt);
        finished = λ f. unfinished f;
        fair = IsFair-all s.shm _ (λ d. absurd (unfinished d.0)) s.consumers v.fair;
        complete = λ w. omega (
          arith,
          v.complete w,
          sum_of-append (of_node w) s.shm.nodes (new ∷ []),
          sum_of-append (of_pending w) s.shm.nodes (new ∷ []),
          pending w,
        );
      })
    ]
  where
    new : Node
    new = record { address = 48 + s.producer.used_memory; count = count; data_ = fill count rand }

    unfinished : {A : Type 0} → s.shm.producer_finished ≡ true → A
    unfinished f = absurd (cc (here, v.finished f))

    pending : (w : BlockReport → ℕ) → of_pending w new ≡ of_node w new
    pending w = rw (lt→ltb 0 count pos) refl

start_block-IsKept :
    (s : System) (r : ℕ) (rand : ℕ → ℕ)
    → IsValid s
    → s.producer.at ≡ ProducerAt.creating
    → IsKept s (start_block r rand s.producer s.shm)
unfolding start_block
start_block-IsKept s r rand v here =
    elim (Bool-cases (ltb (remaining s.shm.total_size s.producer.used_memory) 16)) [
      | inl e ↦ rw (e) (finish-IsKept s v)
      | inr e ↦
          rw (e)
            (elim (Bool-cases
              (ltb (remaining s.shm.total_size s.producer.used_memory) (12 + (r % 50 + 20) * 4))) [
                | inl f ↦ rw (f) (finish-IsKept s v)
                | inr f ↦ rw (f) (create-IsKept s (r % 50 + 20) rand (omega arith) v here)
              ])
    ]

pub produce_from-IsKept :
    (s : System) (r : ℕ) (rand : ℕ → ℕ)
    → IsValid s
    → (a : ProducerAt) → s.producer.at ≡ a
    → IsKept s (produce_from a r rand s.producer s.shm)
unfolding produce_from IsKept
produce_from-IsKept s r rand v ProducerAt.creating e = start_block-IsKept s r rand v e
produce_from-IsKept s r rand v ProducerAt.checking e = check_blocks-IsKept s v e
produce_from-IsKept s r rand v ProducerAt.ending e = finish-IsKept s v
produce_from-IsKept s r rand v ProducerAt.over e = v
