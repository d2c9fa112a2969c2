-- ===== src/QueueChat/Names.antt =====
-- The names of the queues: when the two processes meet.
use eltex_summer.Base.{
  ℕ, zero, suc, ◌+◌, ◌≤◌, ◌≡◌, ◌≢◌, ◌↔◌, refl, sym, ap, ◌∙◌, true, false, some, [], ◌∷◌, ◌++◌,
  Bytes, length, length-append, take, take_all, arith,
}
use native.Mathlib.Decide.{dec_lt}
use eltex_summer.QueueChat.{Opened, queue_name, Openings, init_queues, cleanup_queues}

-- A text that is cut off in front of its last byte does not show that byte.
take_cut :
    (n x y : ℕ) (s : Bytes)
    → n ≤ length s + 1
    → take n (s ++ b'_' ∷ (x ∷ [])) ≡ take n (s ++ b'_' ∷ (y ∷ []))
take_cut zero x y s h = refl
take_cut (suc zero) x y [] h = refl
take_cut (suc (suc n)) x y [] h = absurd (omega arith)
take_cut (suc n) x y (c ∷ s) h = ap (λ l. c ∷ l) (take_cut n x y s (omega arith))

last_bytes : (x y : ℕ) (s : Bytes) → s ++ b'_' ∷ (x ∷ []) ≡ s ++ b'_' ∷ (y ∷ []) → x ≡ y
last_bytes x y [] e = cc
last_bytes x y (c ∷ s) e = last_bytes x y s (cc)

queue_name_lem :
    (x y : ℕ) (base : Bytes) → x ≢ y → (queue_name x base ≡ queue_name y base) ↔ (61 ≤ length base)
unfolding queue_name
queue_name_lem x y base ne = (
  λ e. elim (dec_lt (length base) 61) [
    | yes h ↦
        let short = λ (z : ℕ).
          take_all 63 (b'/' ∷ (base ++ b'_' ∷ (z ∷ [])))
            (omega (arith, length-append base (b'_' ∷ (z ∷ [])))) in
        absurd (ne (last_bytes x y (b'/' ∷ base) (sym (short x) ∙ e ∙ short y)))
    | no h ↦ omega arith
  ],
  λ h. take_cut 63 x y (b'/' ∷ base) (omega arith),
)

-- A first process that creates both queues and a second one that finds them: each receives from the queue that
-- the other one sends to. Each sends to the very queue that it receives from, and so talks to itself,
-- exactly when the name has 61 bytes or more.
pub init_queues-crossed :
    (base : Bytes) (first later : Openings)
    → first.excl ≡ true
    → first.second ≡ true
    → later.excl ≡ false
    → later.existing_1 ≡ true
    → later.existing_2 ≡ true
    → (creator joiner : Opened) × (init_queues base first ≡ (some creator, []))
      × (init_queues base later ≡ (some joiner, []))
      × (creator.queue_send ≡ joiner.queue_recv)
      × (joiner.queue_send ≡ creator.queue_recv)
      × ((creator.queue_send ≡ creator.queue_recv) ↔ (61 ≤ length base))
      × (cleanup_queues base creator ≡ creator.queue_recv ∷ (creator.queue_send ∷ []))
      × (cleanup_queues base joiner ≡ [])
unfolding init_queues cleanup_queues
init_queues-crossed base first later e f g h k = (
  record {
    queue_recv = queue_name b'1' base;
    queue_send = queue_name b'2' base;
    is_creator = true;
  },
  record {
    queue_recv = queue_name b'2' base;
    queue_send = queue_name b'1' base;
    is_creator = false;
  },
  rw (e, f) refl,
  rw (g, h, k) refl,
  refl,
  refl,
  queue_name_lem b'2' b'1' base (omega arith),
  refl,
  refl,
)
