-- ===== src/SharedBlocks/Interleaved.antt =====
-- What every turn of a consumer keeps, and so every interleaving of the turns.
use eltex_summer.Base.{
  ℕ, suc, ◌≡◌, refl, sym, ap, subst, inl, inr, Option, none, some, List, [], ◌∷◌, ◌++◌, ◌>>=◌, set,
  get_elem?, Bool-cases, Option-cases, arith,
}
use eltex_summer.SharedBlocks.{
  Node, SharedMemory, Consumer, ConsumerAt, Producer, BlockReport, System, Turn, of_producer,
  of_consumer, has_unprocessed, take_first, producer_turn, produce_from, take_block, consume_from,
  look, consumer_turn, turn_of, turn, run, start,
}
use eltex_summer.SharedBlocks.Sums.{
  sum_of, sum_of-append, sum_of-set, sum_of-replicate, All-get, All-set, All-replicate, summary,
  process-summary, of_node, held_at, of_held,
}
use eltex_summer.SharedBlocks.Processing.{
  IsDone, IsFairAt, IsFair, IsComplete, IsValid, IsTaken, Taken, take_first-IsTaken, IsFair-all,
  IsKept, produce_from-IsKept,
}

-- A consumer's turn: consumer `i` was `c`.
unfoldable pub moved : System → ℕ → Consumer → SharedMemory → List BlockReport → System
moved s i d shm printed = record s {
  shm = shm;
  consumers = set s.consumers i d;
  reports = s.reports ++ printed;
}

unfoldable IsGood : System → ℕ → Option (Consumer × SharedMemory × List BlockReport) → Type 0
IsGood s i none = ⊥
IsGood s i (some (d, shm, printed)) = IsValid (moved s i d shm printed)

-- Such a turn prints nothing and takes nothing.
stay-IsGood :
    (s : System) (i : ℕ) (c d : Consumer)
    → get_elem? s.consumers i ≡ some c
    → IsValid s
    → IsFair s.shm d
    → ((w : BlockReport → ℕ) → of_held w c ≡ of_held w d)
    → IsGood s i (some (d, s.shm, []))
unfolding IsGood moved IsComplete sum_of
stay-IsGood s i c d e v fair same = record {
  blocks = v.blocks;
  finished = v.finished;
  fair = All-set (IsFair s.shm) s.consumers i d fair v.fair;
  complete = λ w. omega (
    arith,
    v.complete w,
    same w,
    sum_of-set (of_held w) s.consumers i c d e,
    sum_of-append w s.reports [],
  );
}

-- A consumer that holds no block
unfoldable IsIdle : SharedMemory → Consumer → Type 0
IsIdle shm c = IsFair shm c × ((w : BlockReport → ℕ) → of_held w c ≡ 0)

looking-IsIdle : (c : Consumer) (shm : SharedMemory) → c.at ≡ ConsumerAt.looking → IsIdle shm c
unfolding IsIdle IsFair of_held IsFairAt held_at
looking-IsIdle c shm e = (subst (IsFairAt shm) (sym e) tt, λ w. ap (held_at w) e)

look-IsIdle :
    (c : Consumer) (shm : SharedMemory) → c.at ≡ ConsumerAt.looking → IsIdle shm (look c shm)
unfolding look IsIdle IsFair IsFairAt IsDone of_held held_at
look-IsIdle c shm e = elim (Bool-cases shm.producer_finished) [
  | inl f ↦ elim (Bool-cases (has_unprocessed shm.nodes)) [
    | inl u ↦ simp (f, u) (tt, λ w. refl)
    | inr u ↦ simp (f, u) ((refl, refl), λ w. refl)
  ]
  | inr f ↦ elim (Bool-cases (has_unprocessed shm.nodes)) [
    | inl u ↦ simp (f, u) (tt, λ w. refl)
    | inr u ↦ simp (f, u) (looking-IsIdle c shm e)
  ]
]

take-IsGood :
    (s : System) (i : ℕ) (c : Consumer)
    → get_elem? s.consumers i ≡ some c
    → c.at ≡ ConsumerAt.taking
    → IsValid s
    → (n : Node) (after : List Node) → Taken s.shm.nodes n after
    → IsGood s i (
        some (
          record c { at = ConsumerAt.holding n.count n.data_ },
          record s.shm { nodes = after },
          [],
        ))
unfolding IsGood moved IsComplete IsFair IsFairAt IsDone of_held held_at of_node sum_of
take-IsGood s i c e here v n after t = record {
  blocks = t.blocks;
  finished = v.finished;
  fair =
      All-set (IsFair (record s.shm { nodes = after })) s.consumers i
        (record c { at = ConsumerAt.holding n.count n.data_ }) t.block
        (IsFair-all s.shm (record s.shm { nodes = after }) (λ d. absurd (cc (d.1, t.unprocessed)))
          s.consumers v.fair);
  complete = λ w. omega (
    arith,
    v.complete w,
    t.nothing_new w,
    t.one_less w,
    sum_of-append w s.reports [],
    ap (held_at w) here,
    sum_of-set (of_held w) s.consumers i c (record c { at = ConsumerAt.holding n.count n.data_ }) e,
  );
}

taking-IsGood :
    (s : System) (i : ℕ) (c : Consumer)
    → get_elem? s.consumers i ≡ some c
    → c.at ≡ ConsumerAt.taking
    → IsValid s
    → (o : Option (Node × List Node)) → IsTaken s.shm.nodes o
    → IsGood s i (some ((take_block o c s.shm).0, (take_block o c s.shm).1, []))
unfolding take_block IsTaken IsFair IsFairAt of_held held_at
taking-IsGood s i c e here v none t =
    stay-IsGood s i c (record c { at = ConsumerAt.looking }) e v tt (λ w. ap (held_at w) here)
taking-IsGood s i c e here v (some (n, after)) t = take-IsGood s i c e here v n after t

holding-IsGood :
    (s : System) (i : ℕ) (c : Consumer) (count : ℕ) (data_ : List ℕ)
    → get_elem? s.consumers i ≡ some c
    → c.at ≡ ConsumerAt.holding count data_
    → IsValid s
    → IsGood s i (consume_from (ConsumerAt.holding count data_) c s.shm)
unfolding consume_from IsGood moved IsComplete IsFair IsFairAt IsDone of_held held_at sum_of
holding-IsGood s i c count data_ e here v =
    let fair : IsFairAt s.shm (ConsumerAt.holding count data_) =
      subst (IsFairAt s.shm) here (All-get (IsFair s.shm) s.consumers i c e v.fair) in
    rw (fair.1, process-summary data_ fair.0)
      (record {
        blocks = v.blocks;
        finished = v.finished;
        fair = All-set (IsFair s.shm) s.consumers i _ tt v.fair;
        complete = λ w. omega (
          arith,
          v.complete w,
          ap (held_at w) here,
          sum_of-append w s.reports (summary data_ ∷ []),
          sum_of-set (of_held w) s.consumers i c
              (record {
                at = ConsumerAt.looking;
                processed_blocks = suc c.processed_blocks;
                wait_count = c.wait_count;
              })
              e,
        );
      })

consumer_turn-IsGood :
    (s : System) (i : ℕ) (c : Consumer)
    → get_elem? s.consumers i ≡ some c
    → IsValid s
    → (a : ConsumerAt) → c.at ≡ a
    → IsGood s i (consume_from a c s.shm)
unfolding consume_from IsIdle of_held held_at
consumer_turn-IsGood s i c e v ConsumerAt.looking here =
    stay-IsGood s i c (look c s.shm) e v (look-IsIdle c s.shm here).0
      (λ w. (omega (arith, (look-IsIdle c s.shm here).1 w, ap (held_at w) here)))
consumer_turn-IsGood s i c e v ConsumerAt.taking here =
    taking-IsGood s i c e here v (take_first s.shm.nodes) (take_first-IsTaken s.shm.nodes v.blocks)
consumer_turn-IsGood s i c e v (ConsumerAt.holding count data_) here =
    holding-IsGood s i c count data_ e here v
consumer_turn-IsGood s i c e v ConsumerAt.over here =
    stay-IsGood s i c c e v (All-get (IsFair s.shm) s.consumers i c e v.fair) (λ w. refl)

-- `IsValid` of a result that is there
unfoldable AreValid : Option System → Type 0
AreValid none = Unit
AreValid (some s) = IsValid s

IsKept-AreValid :
    (s : System) (o : Option (Producer × SharedMemory))
    → IsKept s o
    → AreValid (o >>= λ (p, shm). some (record s { shm = shm; producer = p }))
unfolding IsKept AreValid
IsKept-AreValid s none h = tt
IsKept-AreValid s (some (p, shm)) h = h

-- A consumer's turn has a result, and it is valid.
IsGood-turn :
    (s : System) (i : ℕ) (o : Option (Consumer × SharedMemory × List BlockReport))
    → IsGood s i o
    → (after : System) × ((o >>= λ (d, shm, printed).
          some (record s {
            shm = shm;
            consumers = set s.consumers i d;
            reports = s.reports ++ printed;
          }))
        ≡ some after)
      × IsValid after
unfolding IsGood moved
IsGood-turn s i none h = absurd h
IsGood-turn s i (some (d, shm, printed)) h = (_, refl, h)

pub of_consumer-turn :
    (s : System) (i : ℕ)
    → IsValid s
    → (after : System) × (turn (of_consumer i) s ≡ some after) × IsValid after
unfolding turn turn_of consumer_turn
of_consumer-turn s i v = elim (Option-cases (get_elem? s.consumers i)) [
  | inl e ↦ rw (e) (s, refl, v)
  | inr (c, e) ↦
      rw (e)
        (IsGood-turn s i (consume_from c.at c s.shm) (consumer_turn-IsGood s i c e v c.at refl))
]

turn-AreValid : (t : Turn) (s : System) → IsValid s → AreValid (turn t s)
unfolding turn producer_turn AreValid
turn-AreValid (of_producer r rand) s v =
    IsKept-AreValid s (produce_from s.producer.at r rand s.producer s.shm)
      (produce_from-IsKept s r rand v s.producer.at refl)
turn-AreValid (of_consumer i) s v =
    let (after, e, w) = of_consumer-turn s i v in subst AreValid (sym e) w

pub run-IsValid :
    (turns : List Turn) (s after : System) → IsValid s → run turns s ≡ some after → IsValid after
unfolding run AreValid
run-IsValid [] s after v e = subst AreValid e v
run-IsValid (t ∷ turns) s after v e = elim (Option-cases (turn t s)) [
  | inl n ↦ absurd (cc)
  | inr (m, p) ↦ run-IsValid turns m after (subst AreValid p (turn-AreValid t s v)) (rw (p) at e)
]

pub start-IsValid : (consumers : ℕ) → IsValid (start consumers)
unfolding start IsComplete IsFair IsFairAt sum_of of_held held_at
start-IsValid consumers = record {
  blocks = tt;
  finished = λ e. absurd (cc);
  fair = All-replicate (IsFair _) consumers _ tt;
  complete = λ w. omega (
    arith,
    sum_of-replicate (of_held w) consumers
        (record { at = ConsumerAt.looking; processed_blocks = 0; wait_count = 0 }) refl,
  );
}
