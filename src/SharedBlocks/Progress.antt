-- ===== src/SharedBlocks/Progress.antt =====
-- A consumer that is given turns finishes the work.
use eltex_summer.Base.{
  ℕ, zero, suc, ◌<◌, ◌≡◌, refl, ap, subst, ◌∙◌, inl, inr, true, false, Option, some, List, [], ◌∷◌,
  ◌>>=◌, length, set, get_elem?, Option-cases, arith,
}
use eltex_summer.SharedBlocks.{
  Node, SharedMemory, Consumer, ConsumerAt, BlockReport, System, Turn, of_consumer, has_unprocessed,
  take_first, take_block, consume_from, look, consumer_turn, turn_of, turn, run, start,
}
use eltex_summer.SharedBlocks.Sums.{sum_of, All-get, summary, process-summary, of_node, of_pending}
use eltex_summer.SharedBlocks.Processing.{
  IsDone, IsFairAt, IsFair, IsValid, IsTaken, Taken, take_first-IsTaken,
}
use eltex_summer.SharedBlocks.Interleaved.{moved, run-IsValid, start-IsValid, of_consumer-turn}

get_elem?-set-some {ℓ} :
    {A : Type ℓ} (xs : List A) (i : ℕ) (x y : A)
    → get_elem? xs i ≡ some x
    → get_elem? (set xs i y) i ≡ some y
get_elem?-set-some [] i x y e = absurd (cc)
get_elem?-set-some (z ∷ xs) zero x y e = refl
get_elem?-set-some (z ∷ xs) (suc i) x y e = get_elem?-set-some xs i x y e

-- Consumer `i` is at `a`, the state is valid and the producer has finished.
record Stands (s : System) (i : ℕ) (a : ConsumerAt) : Type 0 where
  valid : IsValid s
  finished : s.shm.producer_finished ≡ true
  consumer : Consumer
  here : get_elem? s.consumers i ≡ some consumer
  at : consumer.at ≡ a

turn-Stands :
    (s : System) (i : ℕ) (a b : ConsumerAt) (t : Stands s i a) (d : Consumer) (nodes : List Node)
    (printed : List BlockReport)
    → consume_from a t.consumer s.shm ≡ some (d, record s.shm { nodes = nodes }, printed)
    → d.at ≡ b
    → (after : System) × (turn (of_consumer i) s ≡ some after)
      × Stands after i b
      × (after.shm.nodes ≡ nodes)
unfolding turn turn_of consumer_turn moved
turn-Stands s i a b t d nodes printed e at =
    let shm : SharedMemory = record s.shm { nodes = nodes } in
    let (after, p, v) = of_consumer-turn s i t.valid in
    let k : Consumer × SharedMemory × List BlockReport → Option System =
      λ (c, m, lines). some (moved s i c m lines) in
    let q : turn (of_consumer i) s ≡ some (moved s i d shm printed) =
      ap (λ o. turn_of o i s) t.here
      ∙ (ap (λ x. consume_from x t.consumer s.shm >>= k) t.at ∙ ap (λ o. o >>= k) e) in
    let same : after ≡ moved s i d shm printed = cc (p, q) in
    (
      moved s i d shm printed,
      q,
      record {
        valid = subst IsValid same v;
        finished = t.finished;
        consumer = d;
        here = get_elem?-set-some s.consumers i t.consumer d t.here;
        at = at;
      },
      refl,
    )

unfoldable pub pending : System → ℕ
pending s = sum_of (of_pending (λ r. 1)) s.shm.nodes

-- Nothing is left: the consumer ends.
turn-last :
    (s : System) (i : ℕ)
    → Stands s i ConsumerAt.looking
    → has_unprocessed s.shm.nodes ≡ false
    → (after : System) × (turn (of_consumer i) s ≡ some after) × Stands after i ConsumerAt.over
unfolding consume_from look
turn-last s i t e =
    let (after, p, stands, same) =
      turn-Stands s i ConsumerAt.looking ConsumerAt.over t
        (record t.consumer { at = ConsumerAt.over }) s.shm.nodes [] (rw (t.finished, e) refl)
        refl in
    (after, p, stands)

turn-look :
    (s : System) (i : ℕ)
    → Stands s i ConsumerAt.looking
    → has_unprocessed s.shm.nodes ≡ true
    → (after : System) × (turn (of_consumer i) s ≡ some after)
      × Stands after i ConsumerAt.taking
      × (after.shm.nodes ≡ s.shm.nodes)
unfolding consume_from look
turn-look s i t e =
    turn-Stands s i ConsumerAt.looking ConsumerAt.taking t
      (record t.consumer { at = ConsumerAt.taking; wait_count = 0 }) s.shm.nodes []
      (rw (t.finished, e) refl) refl

turn-take :
    (s : System) (i : ℕ) (n : Node) (nodes : List Node)
    → Stands s i ConsumerAt.taking
    → take_first s.shm.nodes ≡ some (n, nodes)
    → n.count ≡ length n.data_
    → (after : System) × (turn (of_consumer i) s ≡ some after)
      × Stands after i (ConsumerAt.holding (length n.data_) n.data_)
      × (after.shm.nodes ≡ nodes)
unfolding consume_from take_block
turn-take s i n nodes t e l =
    turn-Stands s i ConsumerAt.taking (ConsumerAt.holding (length n.data_) n.data_) t
      (record t.consumer { at = ConsumerAt.holding n.count n.data_ }) nodes [] (rw (e) refl)
      (ap (λ c. ConsumerAt.holding c n.data_) l)

turn-report :
    (s : System) (i : ℕ) (data_ : List ℕ)
    → Stands s i (ConsumerAt.holding (length data_) data_)
    → 0 < length data_
    → (after : System) × (turn (of_consumer i) s ≡ some after)
      × Stands after i ConsumerAt.looking
      × (after.shm.nodes ≡ s.shm.nodes)
unfolding consume_from
turn-report s i data_ t h =
    turn-Stands s i (ConsumerAt.holding (length data_) data_) ConsumerAt.looking t
      (record t.consumer {
        at = ConsumerAt.looking;
        processed_blocks = suc t.consumer.processed_blocks;
      })
      s.shm.nodes (summary data_ ∷ []) (rw (process-summary data_ h) refl) refl

turn-over :
    (i : ℕ) (s : System)
    → Stands s i ConsumerAt.over
    → (after : System) × (turn (of_consumer i) s ≡ some after) × Stands after i ConsumerAt.over
unfolding consume_from
turn-over i s t =
    let (after, p, stands, same) =
      turn-Stands s i ConsumerAt.over ConsumerAt.over t t.consumer s.shm.nodes [] refl t.at in
    (after, p, stands)

-- So many lone_rounds of three turns of consumer `i`
unfoldable pub lone_rounds : ℕ → ℕ → List Turn
lone_rounds zero i = []
lone_rounds (suc n) i = of_consumer i ∷ of_consumer i ∷ of_consumer i ∷ lone_rounds n i

run-over :
    (n i : ℕ) (s : System)
    → Stands s i ConsumerAt.over
    → (after : System) × (run (lone_rounds n i) s ≡ some after) × Stands after i ConsumerAt.over
unfolding run lone_rounds
run-over zero i s t = (s, refl, t)
run-over (suc n) i s t =
    let (s1, p1, t1) = turn-over i s t in
    let (s2, p2, t2) = turn-over i s1 t1 in
    let (s3, p3, t3) = turn-over i s2 t2 in
    let (s4, p4, t4) = run-over n i s3 t3 in (s4, rw (p1, p2, p3) p4, t4)

run-finishes :
    (n i : ℕ) (s : System)
    → Stands s i ConsumerAt.looking
    → pending s < n
    → (after : System) × (run (lone_rounds n i) s ≡ some after) × Stands after i ConsumerAt.over
unfolding run lone_rounds pending IsTaken of_node
run-finishes zero i s t h = absurd (omega arith)
run-finishes (suc n) i s t h =
    let nodes : IsTaken s.shm.nodes (take_first s.shm.nodes) =
      take_first-IsTaken s.shm.nodes t.valid.blocks in
    elim (Option-cases (take_first s.shm.nodes)) [
      | inl e ↦
          let (s1, p1, t1) = turn-last s i t (rw (e) at nodes) in
          let (s2, p2, t2) = turn-over i s1 t1 in
          let (s3, p3, t3) = turn-over i s2 t2 in
          let (s4, p4, t4) = run-over n i s3 t3 in (s4, rw (p1, p2, p3) p4, t4)
      | inr ((m, after), e) ↦
          let k : Taken s.shm.nodes m after = rw (e) at nodes in
          let (s1, p1, t1, n1) = turn-look s i t k.unprocessed in
          let (s2, p2, t2, n2) = turn-take s1 i m after t1 (rw (n1) e) k.block.1 in
          let (s3, p3, t3, n3) = turn-report s2 i m.data_ t2 k.block.0 in
          let left : sum_of (of_pending (λ r. 1)) s3.shm.nodes
              ≡ sum_of (of_pending (λ r. 1)) after =
            ap (sum_of (of_pending (λ r. 1))) (n3 ∙ n2) in
          let (s4, p4, t4) = run-finishes n i s3 t3 (omega (arith, left, k.one_less (λ r. 1))) in
          (s4, rw (p1, p2, p3) p4, t4)
    ]

-- A state that the interleaving `turns` reaches, in which the producer has finished and consumer `i` is at
-- the head of its loop: if that consumer alone gets three turns for each block that is still to be
-- taken and three more, it ends, without a fault, and no block is left to take.
pub run-lone_rounds :
    (consumers : ℕ) (turns : List Turn) (s : System) (i : ℕ) (c : Consumer)
    → run turns (start consumers) ≡ some s
    → s.shm.producer_finished ≡ true
    → get_elem? s.consumers i ≡ some c
    → c.at ≡ ConsumerAt.looking
    → (after : System) × (run (lone_rounds (suc (pending s)) i) s ≡ some after)
      × (has_unprocessed after.shm.nodes ≡ false)
      × (d : Consumer) × (get_elem? after.consumers i ≡ some d)
      × (d.at ≡ ConsumerAt.over)
unfolding IsFair IsFairAt IsDone
run-lone_rounds consumers turns s i c e f here at =
    let (after, p, t) =
      run-finishes (suc (pending s)) i s
        (record {
          valid = run-IsValid turns (start consumers) s (start-IsValid consumers) e;
          finished = f;
          consumer = c;
          here = here;
          at = at;
        })
        (omega arith) in
    let fair : IsFairAt after.shm t.consumer.at =
      All-get (IsFair after.shm) after.consumers i t.consumer t.here t.valid.fair in
    let done : IsDone after.shm = subst (IsFairAt after.shm) t.at fair in
    (after, p, done.1, t.consumer, t.here, t.at)
