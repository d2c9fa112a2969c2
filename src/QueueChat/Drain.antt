-- ===== src/QueueChat/Drain.antt =====
-- A process gets through its queue.
use eltex_summer.Base.{
  inl, inr, ◌≡◌, refl, sym, ap, subst, ◌∙◌, Bool, false, List, [], ◌∷◌, ◌++◌, Bytes, map, All,
  length, ltb, ◌==◌, if◌then◌else◌, arith,
}
use mathlib.Core.List.{append-nil}
use eltex_summer.QueueChat.{
  Message, exit_priority, MessageQueues, PeerAt, looking, taking, counting, typing, Peer,
  handle_received_message, handle_bytes, look, count_again, step_at, step, System, Turn, of_creator,
  turn, run, started,
}
use eltex_summer.QueueChat.Places.{IsOurs, lines}
use eltex_summer.QueueChat.Steps.{handle_bytes-shown}
use eltex_summer.QueueChat.Delivery.{IsCarried, started_system, without_lost, run-IsCarried}
use eltex_summer.QueueChat.Ends.{Answers, alone, step_taken}

abbrev pub NoExit : Message → Type 0
NoExit m = (m.priority == exit_priority) ≡ false

-- Two steps for each message
abbrev pub two_each : Bool → List Message → List Bool
two_each key [] = []
two_each key (m ∷ q) = key ∷ (key ∷ two_each key q)

-- Where a process goes that has counted the messages in its queue
abbrev next_at : List Message → PeerAt
next_at [] = typing
next_at (m ∷ q) = taking

next_at_lem : (q : List Message) → (if ltb 0 (length q) then taking else typing) ≡ next_at q
next_at_lem [] = refl
next_at_lem (m ∷ q) = ground arith

nil_lines : (l : List Bytes) → l ≡ l ++ lines []
unfolding lines
nil_lines l = sym (append-nil l)

stays :
    (text : Bytes) (m : Message) (p : Peer)
    → NoExit m
    → (handle_bytes text m p).should_exit ≡ p.should_exit
unfolding handle_bytes handle_received_message
stays [] m p h = refl
stays (b ∷ text) m p h = rw (h) refl

module _ (mq : MessageQueues) (a : Answers mq) where
  open mq use {Queue, contents, mq_curmsgs, counted}

  count_step :
      (p : Peer) (q : Queue) (rest : List Message)
      → contents q ≡ rest
      → p.should_exit ≡ false
      → count_again mq p q ≡ record p { at = next_at rest }
  unfolding count_again
  count_step p q rest c e =
      let (n, f) = a.counts q in
      let same : n ≡ length rest = counted q n f ∙ ap length c in
      rw (f, count_again)
        (rw (e, same) (ap (λ at. record p { at = at; should_exit = false }) (next_at_lem rest)))

  look_step :
      (p : Peer) (q : Queue) (rest : List Message)
      → contents q ≡ rest
      → look mq p q ≡ record p { at = next_at rest }
  unfolding look
  look_step p q rest c =
      let (n, f) = a.counts q in
      let same : n ≡ length rest = counted q n f ∙ ap length c in
      rw (f, look) (rw (same) (ap (λ at. record p { at = at }) (next_at_lem rest)))

  -- From the taking of a message to the end of the queue
  drain :
      (rest : List Message) (m : Message) (key : Bool) (p : Peer) (recv send : Queue)
      → p.at ≡ taking
      → p.should_exit ≡ false
      → contents recv ≡ m ∷ rest
      → All IsOurs (m ∷ rest)
      → All NoExit (m ∷ rest)
      → (alone mq (two_each key (m ∷ rest)) p recv send).0.shown ≡ p.shown ++ lines (m ∷ rest)
  unfolding alone step step_at
  drain [] m key p recv send e f c h k =
      let (q, t, d) = step_taken mq key p recv send m [] a e c in
      let told : Peer = record (handle_bytes m.text m p) { at = counting } in
      ap (λ r. (alone mq (key ∷ []) r.0 r.1 r.2).0.shown) t
      ∙ ap (λ r. r.shown) (count_step told q [] d (stays m.text m p k.0 ∙ f))
      ∙ (nil_lines told.shown ∙ handle_bytes-shown m p [] h.0)
  drain (m' ∷ rest) m key p recv send e f c h k =
      let (q, t, d) = step_taken mq key p recv send m (m' ∷ rest) a e c in
      let told : Peer = record (handle_bytes m.text m p) { at = counting } in
      let goes : Peer = record told { at = taking } in
      let stay : told.should_exit ≡ false = stays m.text m p k.0 ∙ f in
      ap (λ r. (alone mq (key ∷ two_each key (m' ∷ rest)) r.0 r.1 r.2).0.shown) t
      ∙ ap (λ r. (alone mq (two_each key (m' ∷ rest)) r q send).0.shown)
          (count_step told q (m' ∷ rest) d stay)
      ∙ drain rest m' key goes q send refl stay d h.1 k.1
      ∙ handle_bytes-shown m p (m' ∷ rest) h.0

  drain_all :
      (q : List Message) (key : Bool) (p : Peer) (recv send : Queue)
      → p.at ≡ looking
      → p.should_exit ≡ false
      → contents recv ≡ q
      → All IsOurs q
      → All NoExit q
      → (alone mq (key ∷ two_each key q) p recv send).0.shown ≡ p.shown ++ lines q
  unfolding alone step step_at lines
  drain_all [] key p recv send e f c h k =
      ap (λ at. (step_at mq at key p recv send).0.shown) e
      ∙ (ap (λ r. r.shown) (look_step p recv [] c) ∙ sym (append-nil p.shown))
  drain_all (m ∷ q) key p recv send e f c h k =
      let goes : Peer = record p { at = taking } in
      ap
        (λ at.
          (alone mq (two_each key (m ∷ q)) (step_at mq at key p recv send).0
            (step_at mq at key p recv send).1 (step_at mq at key p recv send).2).0.shown)
        e
      ∙ (ap (λ r. (alone mq (two_each key (m ∷ q)) r recv send).0.shown)
            (look_step p recv (m ∷ q) c)
          ∙ drain q m key goes recv send refl f c h k)

  run-alone :
      (keys : List Bool) (s : System Queue)
      → (run mq (map of_creator keys) s).creator.shown
        ≡ (alone mq keys s.creator s.queue_1 s.queue_2).0.shown
  unfolding run turn alone
  run-alone [] s = refl
  run-alone (key ∷ keys) s = run-alone keys (turn mq (of_creator key) s)

  -- In any state that the two processes reach, in which the creator is at the head of its loop and no exit message
  -- is in its queue: if the creator alone takes one step and two more for each message, it has shown
  -- all the lines that the other one has sent. The calls on the queues are assumed to succeed.
  pub run-drained :
      (turns : List Turn) (key : Bool) (junk junk' stdin stdin' : Bytes) (q1 q2 : Queue)
      (s : System Queue)
      → contents q1 ≡ []
      → contents q2 ≡ []
      → run mq turns (started_system mq (started junk stdin) (started junk' stdin') q1 q2) ≡ s
      → s.creator.at ≡ looking
      → s.creator.should_exit ≡ false
      → All NoExit (contents s.queue_1)
      → (run mq (map of_creator (key ∷ two_each key (contents s.queue_1))) s).creator.shown
        ≡ s.joiner.sent
  run-drained turns key junk junk' stdin stdin' q1 q2 s e f r at stay k =
      let v : IsCarried mq s =
        subst (IsCarried mq) r (run-IsCarried mq turns junk junk' stdin stdin' q1 q2 e f) in
      run-alone (key ∷ two_each key (contents s.queue_1)) s
      ∙ (drain_all (contents s.queue_1) key s.creator s.queue_1 s.queue_2 at stay refl v.ours_1 k
          ∙ without_lost mq s.creator s.queue_1 s.joiner.sent v.to_creator
              (elim v.to_creator.ended [ inl n ↦ n | inr o ↦ absurd (cc (at, o)) ]))
