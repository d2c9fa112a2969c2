-- ===== src/QueueChat/Ends.antt =====
-- How a process gets through its queue, and how an exit message ends that.
use eltex_summer.Base.{
  ℕ, ◌≡◌, ◌≢◌, refl, sym, ap, subst, ◌∙◌, inl, inr, Bool, true, false, some, List, [], ◌∷◌, Bytes,
  All, Bool-cases, Option-cases, arith,
}
use eltex_summer.QueueChat.{
  Message, exit_message, normal_message, MessageQueues, taking, counting, typing, over, Peer,
  read_user_input, is_command, handle_received_message, handle_bytes, take_message, count_again,
  go_on, handle_input, send_message, type_line, step_at, step,
}
use eltex_summer.QueueChat.Places.{IsOurs, lines, lines-place_exit, first-place_exit}

module _ (mq : MessageQueues) where
  open mq use {Queue, contents, mq_send, mq_receive, mq_curmsgs, placed, received, counted}

  -- A queue with a message gives one out, and the messages of a queue can be counted.
  pub record Answers : Type 0 where
    pub receives : (q : Queue) → contents q ≢ [] → (r : Message × Queue) × (mq_receive q ≡ some r)
    pub counts : (q : Queue) → (n : ℕ) × (mq_curmsgs q ≡ some n)

  go_on-over : (p : Peer) → p.should_exit ≡ true → (go_on p).at ≡ over
  unfolding go_on
  go_on-over p e = rw (e) refl

  module _ (p : Peer) (send : Queue) (leaves : p.should_exit ≡ true) where
    send_message-leaves :
        (line : Bytes) (r : Peer)
        → r.should_exit ≡ true
        → ((send_message mq line r send).0.should_exit ≡ true)
          × ((send_message mq line r send).0.shown ≡ r.shown)
    unfolding send_message
    send_message-leaves line r e = elim (Option-cases (mq_send send (normal_message line))) [
      | inl g ↦ rw (g, send_message) (e, refl)
      | inr (q, g) ↦ rw (g, send_message) (e, refl)
    ]

    handle_input-leaves :
        (line : Bytes) (r : Peer)
        → r.should_exit ≡ true
        → ((handle_input mq line r send).0.at ≡ over)
          × ((handle_input mq line r send).0.shown ≡ r.shown)
    unfolding handle_input go_on
    handle_input-leaves [] r e = (go_on-over r e, refl)
    handle_input-leaves (c ∷ line) r e = elim (Bool-cases (is_command (c ∷ line))) [
      | inl y ↦ rw (y, handle_input) (refl, refl)
      | inr n ↦
          let s = send_message-leaves (c ∷ line) r e in
          rw (n, handle_input) (go_on-over (send_message mq (c ∷ line) r send).0 s.0, s.1)
    ]

    type_line-leaves :
        (key : Bool)
        → ((type_line mq key p send).0.at ≡ over) × ((type_line mq key p send).0.shown ≡ p.shown)
    unfolding type_line go_on
    type_line-leaves false = (go_on-over p leaves, refl)
    type_line-leaves true = elim (Option-cases (read_user_input p.stdin).0) [
      | inl e ↦
          rw (e, type_line)
            (go_on-over (record p { stdin = (read_user_input p.stdin).1 }) leaves, refl)
      | inr (line, e) ↦ rw (e, type_line) (handle_input-leaves line _ leaves)
    ]

  -- The steps of one process alone, with what it sees of the keyboard
  unfoldable pub alone : List Bool → Peer → Queue → Queue → Peer × Queue × Queue
  alone [] p recv send = (p, recv, send)
  alone (key ∷ keys) p recv send =
      let (p', recv', send') = step mq key p recv send in alone keys p' recv' send'

  count_again-leaves :
      (p : Peer) (recv : Queue)
      → p.should_exit ≡ true
      → count_again mq p recv ≡ record p { at = typing }
  unfolding count_again
  count_again-leaves p recv e = elim (Option-cases (mq_curmsgs recv)) [
    | inl f ↦ rw (f, count_again) refl
    | inr (n, f) ↦ rw (f, count_again) (ground (arith, e))
  ]

  take_step :
      (p : Peer) (recv : Queue) (m : Message) (rest : List Message)
      → Answers
      → contents recv ≡ m ∷ rest
      → (q : Queue) × (take_message mq p recv
          ≡ (record (handle_bytes m.text m p) { at = counting }, q))
        × (contents q ≡ rest)
  unfolding take_message
  take_step p recv m rest a c =
      let ((m', q), e) = a.receives recv (λ n. cc (c, n)) in
      let both : m ∷ rest ≡ m' ∷ contents q = sym c ∙ received recv q m' e in
      let same : m' ≡ m = cc in
      (
        q,
        rw (e, take_message)
            (ap (λ (t : Message). (record (handle_bytes t.text t p) { at = counting }, q)) same),
        cc,
      )

  pub step_taken :
      (key : Bool) (p : Peer) (recv send : Queue) (m : Message) (rest : List Message)
      → Answers
      → p.at ≡ taking
      → contents recv ≡ m ∷ rest
      → (q : Queue) × (step mq key p recv send
          ≡ (record (handle_bytes m.text m p) { at = counting }, q, send))
        × (contents q ≡ rest)
  unfolding step step_at
  step_taken key p recv send m rest a e c =
      let (q, t, d) = take_step p recv m rest a c in
      (q, ap (λ at. step_at mq at key p recv send) e ∙ ap (λ r. (r.0, r.1, send)) t, d)

  -- When an exit message is sent to a process that is about to take a message, and that one goes on in whatever
  -- way, it is at its end after three steps of its own. It has shown nothing more, and all the
  -- lines that were sent to it before are left in its queue.
  pub exit_hides :
      (p : Peer) (recv recv' send : Queue) (key key' key'' : Bool)
      → Answers
      → All IsOurs (contents recv)
      → p.at ≡ taking
      → mq_send recv exit_message ≡ some recv'
      → ((alone (key ∷ key' ∷ key'' ∷ []) p recv' send).0.at ≡ over)
        × ((alone (key ∷ key' ∷ key'' ∷ []) p recv' send).0.shown ≡ p.shown)
        × (lines (contents (alone (key ∷ key' ∷ key'' ∷ []) p recv' send).1)
            ≡ lines (contents recv))
  unfolding alone lines handle_bytes handle_received_message step step_at
  exit_hides p recv recv' send key key' key'' a h e s =
      let (rest, f) = first-place_exit (contents recv) h in
      let c : contents recv' ≡ exit_message ∷ rest = placed recv recv' exit_message s ∙ f in
      let (q, t, d) = step_taken key p recv' send exit_message rest a e c in
      let told : Peer = record (handle_bytes exit_message.text exit_message p) { at = counting } in
      let goes : Peer = record told { at = typing } in
      let chain : alone (key ∷ key' ∷ key'' ∷ []) p recv' send ≡ alone (key'' ∷ []) goes q send =
        ap (λ r. alone (key' ∷ key'' ∷ []) r.0 r.1 r.2) t
        ∙ ap (λ r. alone (key'' ∷ []) r q send) (count_again-leaves told q refl) in
      let left : lines (contents q) ≡ lines (contents recv) =
        ap lines d ∙ (sym (ap lines f) ∙ lines-place_exit (contents recv)) in
      let left_at = type_line-leaves goes send refl key'' in
      subst
        (λ r.
          (r.0.at ≡ over) × (r.0.shown ≡ p.shown) × (lines (contents r.1) ≡ lines (contents recv)))
        (sym chain) (left_at.0, left_at.1, left)
