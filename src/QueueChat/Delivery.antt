-- ===== src/QueueChat/Delivery.antt =====
-- What the two processes show, in every interleaving of their steps, as long as they run.
use mathlib.Core.List.{append_assoc, append-nil}
use eltex_summer.Base.{
  ◌≤◌, ◌≡◌, ◌⊎◌, inl, inr, Bool, refl, sym, ap, subst, ◌∙◌, List, [], ◌∷◌, ◌++◌, Bytes, All, length,
  Option-cases, arith,
}
use eltex_summer.QueueChat.{
  Message, MessageQueues, PeerAt, Peer, step, step_at, interrupt_at, interrupt_received,
  send_exit_message, cut_creator, cut_joiner, System, Turn, of_creator, of_joiner,
  interrupt_creator, interrupt_joiner, turn, run, started,
}
use eltex_summer.QueueChat.Places.{IsOurs, lines, lines-cons, length-lines_one}
use eltex_summer.QueueChat.Steps.{Carries, step_at-Carries, interrupt_at-Carries, send_exit-Carries}

module _ (mq : MessageQueues) where
  open mq use {Queue, contents, mq_send, mq_receive, mq_curmsgs, placed, received, counted}

  -- The lines sent to a process are shown, or on their way; but for one that it has taken and not shown, because
  -- a signal ended it.
  pub record IsTaken (p : Peer) (q : Queue) (sent : List Bytes) : Type 0 where
    pub lost : List Bytes
    pub few : length lost ≤ 1
    pub ended : (lost ≡ []) ⊎ (p.at ≡ PeerAt.over)
    pub all : (p.shown ++ lost) ++ lines (contents q) ≡ sent

  -- This holds both ways, and the queues hold what the programs send.
  pub record IsCarried (s : System Queue) : Type 0 where
    pub ours_1 : All IsOurs (contents s.queue_1)
    pub ours_2 : All IsOurs (contents s.queue_2)
    pub to_creator : IsTaken s.creator s.queue_1 s.joiner.sent
    pub to_joiner : IsTaken s.joiner s.queue_2 s.creator.sent

  -- One turn of a process, of any kind
  record Taken (p : Peer) (recv send : Queue) (p' : Peer) (recv' send' : Queue) : Type 0 where
    ours_recv : All IsOurs (contents recv')
    ours_send : All IsOurs (contents send')
    taken : (sent : List Bytes) → IsTaken p recv sent → IsTaken p' recv' sent
    given :
        (before : List Bytes)
        → before ++ lines (contents send) ≡ p.sent
        → before ++ lines (contents send') ≡ p'.sent

  nothing_lost :
      (p : Peer) (q : Queue) (sent : List Bytes)
      → p.shown ++ lines (contents q) ≡ sent
      → IsTaken p q sent
  nothing_lost p q sent e = record {
    lost = [];
    few = omega arith;
    ended = inl refl;
    all = ap (λ l. l ++ lines (contents q)) (append-nil p.shown) ∙ e;
  }

  pub without_lost :
      (p : Peer) (q : Queue) (sent : List Bytes) (v : IsTaken p q sent)
      → v.lost ≡ []
      → p.shown ++ lines (contents q) ≡ sent
  without_lost p q sent v e =
      ap (λ l. l ++ lines (contents q)) (sym (append-nil p.shown) ∙ ap (λ l. p.shown ++ l) (sym e))
      ∙ v.all

  Carries-Taken :
      (p : Peer) (recv send : Queue) (p' : Peer) (recv' send' : Queue)
      → Carries mq p recv send p' recv' send'
      → (p.at ≡ PeerAt.over → (p'.at ≡ PeerAt.over) × (p'.shown ≡ p.shown) × (recv' ≡ recv))
      → Taken p recv send p' recv' send'
  Carries-Taken p recv send p' recv' send' c rests = record {
    ours_recv = c.ours_recv;
    ours_send = c.ours_send;
    taken = λ sent v. elim v.ended [
      | inl e ↦ nothing_lost p' recv' sent (c.taken ∙ without_lost p recv sent v e)
      | inr o ↦
          let (over', shown', queue') = rests o in
          record {
            lost = v.lost;
            few = v.few;
            ended = inr over';
            all =
                ap (λ l. (l ++ v.lost) ++ lines (contents recv')) shown'
                ∙ ap (λ q. (p.shown ++ v.lost) ++ lines (contents q)) queue'
                ∙ v.all;
          }
    ];
    given = c.given;
  }

  module _ (p : Peer) (recv send : Queue) (h : All IsOurs (contents recv))
      (k : All IsOurs (contents send)) where
    step-Taken :
        (key : Bool)
        → Taken p recv send
            (step mq key p recv send).0
            (step mq key p recv send).1
            (step mq key p recv send).2
    unfolding step step_at
    step-Taken key =
        Carries-Taken p recv send _ _ _ (step_at-Carries mq p recv send h k p.at key)
          (λ o. rw (o) (refl, refl, refl))

    interrupt_at-Taken :
        (a : PeerAt)
        → p.at ≡ a
        → Taken p recv send (interrupt_at mq a p send).0 recv (interrupt_at mq a p send).1
    unfolding interrupt_at
    interrupt_at-Taken PeerAt.over e =
        Carries-Taken p recv send _ _ _ (interrupt_at-Carries mq p recv send h k PeerAt.over)
          (λ o. (o, refl, refl))
    interrupt_at-Taken PeerAt.looking e =
        Carries-Taken p recv send _ _ _ (interrupt_at-Carries mq p recv send h k PeerAt.looking)
          (λ o. (refl, refl, refl))
    interrupt_at-Taken PeerAt.taking e =
        Carries-Taken p recv send _ _ _ (interrupt_at-Carries mq p recv send h k PeerAt.taking)
          (λ o. (refl, refl, refl))
    interrupt_at-Taken PeerAt.counting e =
        Carries-Taken p recv send _ _ _ (interrupt_at-Carries mq p recv send h k PeerAt.counting)
          (λ o. (refl, refl, refl))
    interrupt_at-Taken PeerAt.typing e =
        Carries-Taken p recv send _ _ _ (interrupt_at-Carries mq p recv send h k PeerAt.typing)
          (λ o. (refl, refl, refl))

    -- The message that is taken is the one that is lost.
    cut-Taken :
        (m : Message) (q : Queue)
        → p.at ≡ PeerAt.taking
        → contents recv ≡ m ∷ contents q
        → Taken p recv send (record p { at = PeerAt.over }) q (send_exit_message mq send)
    cut-Taken m q e r =
        let both : All IsOurs (m ∷ contents q) = subst (All IsOurs) r h in
        let exit = send_exit-Carries mq p recv send h k (record p { at = PeerAt.over }) refl refl in
        record {
          ours_recv = both.1;
          ours_send = exit.ours_send;
          taken = λ sent v.
              let none_before : v.lost ≡ [] = elim v.ended [
                | inl n ↦ n
                | inr o ↦ absurd (cc (e, o))
              ] in
              record {
                lost = lines (m ∷ []);
                few = length-lines_one m;
                ended = inr refl;
                all =
                    append_assoc p.shown (lines (m ∷ [])) (lines (contents q))
                    ∙ ap (λ l. p.shown ++ l) (sym (lines-cons m (contents q)) ∙ ap lines (sym r))
                    ∙ without_lost p recv sent v none_before;
              };
          given = exit.given;
        }

    interrupt_received-Taken :
        (a : PeerAt)
        → p.at ≡ a
        → Taken p recv send
            (interrupt_received mq a p recv send).0
            (interrupt_received mq a p recv send).1
            (interrupt_received mq a p recv send).2
    unfolding interrupt_received
    interrupt_received-Taken PeerAt.taking e = elim (Option-cases (mq_receive recv)) [
      | inl n ↦
          rw (n, interrupt_received) (unfold interrupt_at in interrupt_at-Taken PeerAt.taking e)
      | inr ((m, q), n) ↦ rw (n, interrupt_received) (cut-Taken m q e (received recv q m n))
    ]
    interrupt_received-Taken PeerAt.looking e = interrupt_at-Taken PeerAt.looking e
    interrupt_received-Taken PeerAt.counting e = interrupt_at-Taken PeerAt.counting e
    interrupt_received-Taken PeerAt.typing e = interrupt_at-Taken PeerAt.typing e
    interrupt_received-Taken PeerAt.over e = interrupt_at-Taken PeerAt.over e

  given-IsTaken :
      (p : Peer) (recv send : Queue) (p' : Peer) (recv' send' : Queue) (r : Peer)
      → Taken p recv send p' recv' send'
      → IsTaken r send p.sent
      → IsTaken r send' p'.sent
  given-IsTaken p recv send p' recv' send' r c v = record {
    lost = v.lost;
    few = v.few;
    ended = v.ended;
    all = c.given (r.shown ++ v.lost) v.all;
  }

  creator-IsCarried :
      (s : System Queue) (p : Peer) (q1 q2 : Queue)
      → IsCarried s
      → Taken s.creator s.queue_1 s.queue_2 p q1 q2
      → IsCarried (record s { creator = p; queue_1 = q1; queue_2 = q2 })
  creator-IsCarried s p q1 q2 v c = record {
    ours_1 = c.ours_recv;
    ours_2 = c.ours_send;
    to_creator = c.taken s.joiner.sent v.to_creator;
    to_joiner = given-IsTaken s.creator s.queue_1 s.queue_2 p q1 q2 s.joiner c v.to_joiner;
  }

  joiner-IsCarried :
      (s : System Queue) (p : Peer) (q1 q2 : Queue)
      → IsCarried s
      → Taken s.joiner s.queue_2 s.queue_1 p q2 q1
      → IsCarried (record s { joiner = p; queue_1 = q1; queue_2 = q2 })
  joiner-IsCarried s p q1 q2 v c = record {
    ours_1 = c.ours_send;
    ours_2 = c.ours_recv;
    to_creator = given-IsTaken s.joiner s.queue_2 s.queue_1 p q2 q1 s.creator c v.to_creator;
    to_joiner = c.taken s.creator.sent v.to_joiner;
  }

  turn-IsCarried : (t : Turn) (s : System Queue) → IsCarried s → IsCarried (turn mq t s)
  unfolding turn
  turn-IsCarried (of_creator key) s v =
      creator-IsCarried s _ _ _ v (step-Taken s.creator s.queue_1 s.queue_2 v.ours_1 v.ours_2 key)
  turn-IsCarried (of_joiner key) s v =
      joiner-IsCarried s _ _ _ v (step-Taken s.joiner s.queue_2 s.queue_1 v.ours_2 v.ours_1 key)
  turn-IsCarried interrupt_creator s v =
      creator-IsCarried s _ _ _ v
        (interrupt_at-Taken s.creator s.queue_1 s.queue_2 v.ours_1 v.ours_2 s.creator.at refl)
  turn-IsCarried interrupt_joiner s v =
      joiner-IsCarried s _ _ _ v
        (interrupt_at-Taken s.joiner s.queue_2 s.queue_1 v.ours_2 v.ours_1 s.joiner.at refl)
  turn-IsCarried cut_creator s v =
      creator-IsCarried s _ _ _ v
        (interrupt_received-Taken s.creator s.queue_1 s.queue_2 v.ours_1 v.ours_2 s.creator.at refl)
  turn-IsCarried cut_joiner s v =
      joiner-IsCarried s _ _ _ v
        (interrupt_received-Taken s.joiner s.queue_2 s.queue_1 v.ours_2 v.ours_1 s.joiner.at refl)

  run_keeps_IsCarried :
      (turns : List Turn) (s : System Queue) → IsCarried s → IsCarried (run mq turns s)
  unfolding run
  run_keeps_IsCarried [] s v = v
  run_keeps_IsCarried (t ∷ turns) s v =
      run_keeps_IsCarried turns (turn mq t s) (turn-IsCarried t s v)

  abbrev pub started_system : Peer → Peer → Queue → Queue → System Queue
  started_system p r q1 q2 = record { creator = p; joiner = r; queue_1 = q1; queue_2 = q2 }

  started-IsCarried :
      (junk junk' stdin stdin' : Bytes) (q1 q2 : Queue)
      → contents q1 ≡ []
      → contents q2 ≡ []
      → IsCarried (started_system (started junk stdin) (started junk' stdin') q1 q2)
  unfolding lines
  started-IsCarried junk junk' stdin stdin' q1 q2 e f = record {
    ours_1 = subst (All IsOurs) (sym e) tt;
    ours_2 = subst (All IsOurs) (sym f) tt;
    to_creator = nothing_lost _ q1 [] (ap lines e);
    to_joiner = nothing_lost _ q2 [] (ap lines f);
  }

  -- Two processes start with empty queues, and take turns in any order; SIGINT comes to them between their steps,
  -- or when a message is received and not shown yet. Then the lines that each has shown, followed by those in
  -- its queue, are exactly the lines that the other one has sent, in the order in which they were sent, but for
  -- at most one line between the two parts, which a process that SIGINT has ended had taken. Every message in
  -- the queues is an exit message or a line of at most 255 bytes with its zero byte.
  pub run-IsCarried :
      (turns : List Turn) (junk junk' stdin stdin' : Bytes) (q1 q2 : Queue)
      → contents q1 ≡ []
      → contents q2 ≡ []
      → IsCarried (run mq turns (started_system (started junk stdin) (started junk' stdin') q1 q2))
  run-IsCarried turns junk junk' stdin stdin' q1 q2 e f =
      run_keeps_IsCarried turns _ (started-IsCarried junk junk' stdin stdin' q1 q2 e f)
