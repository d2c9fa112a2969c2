-- ===== src/SharedBlocks/Blocks.antt =====
-- Every block is reported once.
use eltex_summer.Base.{
  ℕ, ◌<◌, ◌≡◌, refl, ap, subst, inl, inr, false, some, List, [], ◌∷◌, ltb, length, All, Bool-cases,
  arith,
}
use eltex_summer.SharedBlocks.{
  Node, Consumer, ConsumerAt, ProducerAt, BlockReport, System, Turn, of_consumer, has_unprocessed,
  turn, run, start,
}
use eltex_summer.SharedBlocks.Sums.{sum_of, of_node, of_pending, held_at, of_held}
use eltex_summer.SharedBlocks.Processing.{IsDone, IsFairAt, IsFair, IsComplete}
use eltex_summer.SharedBlocks.Interleaved.{run-IsValid, start-IsValid, of_consumer-turn}

-- After any interleaving of turns that stays inside the memory, and for any weight given to a line of a
-- report: the weights of the lines printed, of the blocks that consumers hold and of the blocks still
-- to be taken add up to the weights of all blocks created. So no block is lost or reported twice.
pub run-IsComplete :
    (consumers : ℕ) (turns : List Turn) (s : System)
    → run turns (start consumers) ≡ some s
    → IsComplete s
run-IsComplete consumers turns s e =
    (run-IsValid turns (start consumers) s (start-IsValid consumers) e).complete

-- In every state that an interleaving reaches, each further turn of any consumer stays inside the memory:
-- it never reads a number beyond its block.
pub run-of_consumer :
    (consumers : ℕ) (turns : List Turn) (s : System) (i : ℕ)
    → run turns (start consumers) ≡ some s
    → (after : System) × (turn (of_consumer i) s ≡ some after)
run-of_consumer consumers turns s i e =
    let (after, p, v) =
      of_consumer-turn s i (run-IsValid turns (start consumers) s (start-IsValid consumers) e) in
    (after, p)

unfoldable pub IsOver : Consumer → Type 0
IsOver c = c.at ≡ ConsumerAt.over

sum_of-pending_done :
    (w : BlockReport → ℕ) (nodes : List Node)
    → has_unprocessed nodes ≡ false
    → sum_of (of_pending w) nodes ≡ 0
unfolding sum_of has_unprocessed of_pending
sum_of-pending_done w [] e = refl
sum_of-pending_done w (n ∷ nodes) e = elim (Bool-cases (ltb 0 n.count)) [
  | inl p ↦ absurd (cc (e, p))
  | inr q ↦ rw (q) omega (arith, sum_of-pending_done w nodes (rw (q) at e))
]

sum_of-held_over :
    (w : BlockReport → ℕ) (cs : List Consumer) → All IsOver cs → sum_of (of_held w) cs ≡ 0
unfolding sum_of of_held held_at IsOver
sum_of-held_over w [] h = refl
sum_of-held_over w (c ∷ cs) h = omega (arith, ap (held_at w) h.0, sum_of-held_over w cs h.1)

-- After any interleaving that stays inside the memory: if there is a consumer and all of them have ended,
-- the producer has finished, and for any weight given to a line of a report, the lines printed weigh
-- as much as the blocks created: each block was reported once, with its size, least and greatest number.
pub run-Reported :
    (consumers : ℕ) (turns : List Turn) (s : System)
    → run turns (start consumers) ≡ some s
    → 0 < length s.consumers
    → All IsOver s.consumers
    → (s.producer.at ≡ ProducerAt.over)
      × ((w : BlockReport → ℕ) → sum_of w s.reports ≡ sum_of (of_node w) s.shm.nodes)
unfolding IsOver IsFairAt IsFair IsDone IsComplete
run-Reported consumers turns s e some_one all_over =
    let v = run-IsValid turns (start consumers) s (start-IsValid consumers) e in
    let done = first s.consumers some_one all_over v.fair in
    (
      v.finished done.0,
      λ w. omega (
        arith,
        v.complete w,
        sum_of-held_over w s.consumers all_over,
        sum_of-pending_done w s.shm.nodes done.1,
      ),
    )
  where
    first :
        (cs : List Consumer) → 0 < length cs → All IsOver cs → All (IsFair s.shm) cs → IsDone s.shm
    first [] p o f = absurd (omega arith)
    first (c ∷ cs) p o f = subst (IsFairAt s.shm) o.0 f.0
