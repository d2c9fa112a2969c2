-- ===== src/QueueChat/Steps.antt =====
-- What one step of a process does to the lines shown, sent and on their way.
use eltex_summer.Base.{
  ℕ, zero, suc, ◌+◌, ◌-◌, ◌≤◌, ◌≡◌, refl, sym, ap, subst, ◌∙◌, inl, inr, Bool, true, false, some,
  List, [], ◌∷◌, ◌++◌, Bytes, c_str, cut_at-Without, length-cut_at, Without, All, length, drop,
  Bool-cases, Option-cases, arith,
}
use mathlib.Core.List.{append_assoc}
use eltex_summer.Contacts.Input.{fgets, read_line}
use eltex_summer.QueueChat.{
  Message, exit_message, normal_message, MessageQueues, PeerAt, looking, taking, counting, typing,
  over, Peer, cut_newline, kept_line, read_user_input, fill_buffer, handle_received_message,
  handle_bytes, is_command, send_exit_message, send_message, look, take_message, count_again, go_on,
  handle_input, type_line, step_at, interrupt_at,
}
use eltex_summer.QueueChat.Places.{
  IsOurs, lines, All-place, c_str-line, lines-place_exit, lines-place_line,
}

cut_newline_bound : (s : Bytes) → length (cut_newline s) ≤ length s
unfolding cut_newline
cut_newline_bound [] = omega arith
cut_newline_bound (c ∷ []) = ground arith
cut_newline_bound (c ∷ d ∷ s) = omega (arith, cut_newline_bound (d ∷ s))

cut_newline-Without : (s : Bytes) → Without 0 s → Without 0 (cut_newline s)
unfolding cut_newline
cut_newline-Without [] h = tt
cut_newline-Without (c ∷ []) h = ground arith
cut_newline-Without (c ∷ d ∷ s) h = (h.0, cut_newline-Without (d ∷ s) h.1)

read_line_bound : (n : ℕ) (s : Bytes) → length (read_line n s).0 ≤ n
unfolding read_line
read_line_bound zero s = omega arith
read_line_bound (suc n) [] = omega arith
read_line_bound (suc n) (c ∷ s) = ground (arith, read_line_bound n s)

fgets_bound :
    (n : ℕ) (buffer : Bytes) (c : ℕ) (s : Bytes)
    → Without 0 (fgets (n + 1) buffer (c ∷ s)).0 × (length (fgets (n + 1) buffer (c ∷ s)).0 ≤ n)
unfolding fgets
fgets_bound n buffer c s =
    let e : n + 1 - 1 ≡ n = omega arith in
    let t : Bytes = (read_line (n + 1 - 1) (c ∷ s)).0 in
    (cut_at-Without 0 t, omega (arith, length-cut_at 0 t, read_line_bound (n + 1 - 1) (c ∷ s)))

kept_line_bound :
    (n : ℕ) (s line : Bytes)
    → kept_line s ≡ some line
    → Without 0 s
    → length s ≤ n
    → Without 0 line × (length line ≤ n)
unfolding kept_line
kept_line_bound n [] line h w l = absurd (cc)
kept_line_bound n (c ∷ s) line h w l =
    let e : cut_newline (c ∷ s) ≡ line = cc in
    (
      subst (Without 0) e (cut_newline-Without (c ∷ s) w),
      omega (arith, ap length e, cut_newline_bound (c ∷ s), l),
    )

-- Every line that is read fits into a message with its zero byte.
read_user_input_bound :
    (s line : Bytes) → (read_user_input s).0 ≡ some line → Without 0 line × (length line ≤ 255)
unfolding read_user_input
read_user_input_bound [] line h = absurd (cc)
read_user_input_bound (c ∷ s) line h =
    let b = fgets_bound 255 [] c s in kept_line_bound 255 (fgets 256 [] (c ∷ s)).0 line h b.0 b.1

shown_line :
    (line buffer : Bytes) → Without 0 line → c_str (fill_buffer (line ++ 0 ∷ []) buffer) ≡ line
unfolding fill_buffer
shown_line line buffer w =
    let behind : Bytes = drop (length (line ++ 0 ∷ [])) buffer in
    ap c_str (append_assoc line (0 ∷ []) behind) ∙ c_str-line line behind w

handle_line-shown :
    (line : Bytes) (p : Peer)
    → Without 0 line
    → (handle_bytes (line ++ 0 ∷ []) (normal_message line) p).shown ≡ p.shown ++ line ∷ []
unfolding handle_bytes handle_received_message
handle_line-shown [] p w = ap (λ l. p.shown ++ l ∷ []) (shown_line [] p.recv_buf w)
handle_line-shown (c ∷ line) p w = ap (λ l. p.shown ++ l ∷ []) (shown_line (c ∷ line) p.recv_buf w)

-- What a message adds to the lines shown is what it takes from the queue.
pub handle_bytes-shown :
    (m : Message) (p : Peer) (q : List Message)
    → IsOurs m
    → (handle_bytes m.text m p).shown ++ lines q ≡ p.shown ++ lines (m ∷ q)
unfolding lines
handle_bytes-shown m p q (inl e) = rw (e) (unfold handle_bytes handle_received_message in refl)
handle_bytes-shown m p q (inr (line, e, w, l)) = rw (e) (
    ap (λ t. t ++ lines q) (handle_line-shown line p w)
    ∙ append_assoc p.shown (line ∷ []) (lines q)
    ∙ ap (λ t. p.shown ++ t ∷ lines q) (sym (c_str-line line [] w)))

handle_bytes-sent : (text : Bytes) (m : Message) (p : Peer) → (handle_bytes text m p).sent ≡ p.sent
unfolding handle_bytes handle_received_message
handle_bytes-sent [] m p = refl
handle_bytes-sent (b ∷ text) m p = ground arith

module _ (mq : MessageQueues) where
  open mq use {Queue, contents, mq_send, mq_receive, mq_curmsgs, placed, received}

  -- What a step of a process keeps of the queue that it receives from and of the one that it sends to
  pub record Carries (p : Peer) (recv send : Queue) (p' : Peer) (recv' send' : Queue) : Type 0 where
    pub ours_recv : All IsOurs (contents recv')
    pub ours_send : All IsOurs (contents send')
    pub taken : p'.shown ++ lines (contents recv') ≡ p.shown ++ lines (contents recv)
    pub given :
        (before : List Bytes)
        → before ++ lines (contents send) ≡ p.sent
        → before ++ lines (contents send') ≡ p'.sent

  module _ (p : Peer) (recv send : Queue) (h : All IsOurs (contents recv))
      (k : All IsOurs (contents send)) where
    still : (p' : Peer) → p'.shown ≡ p.shown → p'.sent ≡ p.sent → Carries p recv send p' recv send
    still p' e f = record {
      ours_recv = h;
      ours_send = k;
      taken = ap (λ l. l ++ lines (contents recv)) e;
      given = λ before g. g ∙ sym f;
    }

    look-Carries : Carries p recv send (look mq p recv) recv send
    unfolding look
    look-Carries = elim (Option-cases (mq_curmsgs recv)) [
      | inl e ↦ rw (e, look) (still _ refl refl)
      | inr (n, e) ↦ rw (e, look) (still _ refl refl)
    ]

    count_again-Carries : Carries p recv send (count_again mq p recv) recv send
    unfolding count_again
    count_again-Carries = elim (Option-cases (mq_curmsgs recv)) [
      | inl e ↦ rw (e, count_again) (still _ refl refl)
      | inr (n, e) ↦ rw (e, count_again) (still _ refl refl)
    ]

    pub send_exit-Carries :
        (p' : Peer)
        → p'.shown ≡ p.shown
        → p'.sent ≡ p.sent
        → Carries p recv send p' recv (send_exit_message mq send)
    unfolding send_exit_message
    send_exit-Carries p' e f = elim (Option-cases (mq_send send exit_message)) [
      | inl g ↦ rw (g, send_exit_message) (still p' e f)
      | inr (q, g) ↦
          rw (g, send_exit_message)
            (record {
              ours_recv = h;
              ours_send =
                  subst (All IsOurs) (sym (placed send q exit_message g))
                    (All-place IsOurs exit_message (contents send) (inl refl) k);
              taken = ap (λ l. l ++ lines (contents recv)) e;
              given = λ before c.
                  ap (λ l. before ++ l)
                    (ap lines (placed send q exit_message g) ∙ lines-place_exit (contents send))
                  ∙ (c ∙ sym f);
            })
    ]

    take_message-Carries :
        Carries p recv send (take_message mq p recv).0 (take_message mq p recv).1 send
    unfolding take_message
    take_message-Carries = elim (Option-cases (mq_receive recv)) [
      | inl e ↦ rw (e, take_message) (still _ refl refl)
      | inr ((m, q), e) ↦
          let r : contents recv ≡ m ∷ contents q = received recv q m e in
          let both : All IsOurs (m ∷ contents q) = subst (All IsOurs) r h in
          rw (e, take_message)
            (record {
              ours_recv = both.1;
              ours_send = k;
              taken =
                  handle_bytes-shown m p (contents q) both.0 ∙ ap (λ l. p.shown ++ lines l) (sym r);
              given = λ before g. g ∙ sym (handle_bytes-sent m.text m p);
            })
    ]

    send_message-Carries :
        (line : Bytes) (p' : Peer)
        → p'.shown ≡ p.shown
        → p'.sent ≡ p.sent
        → Without 0 line
        → length line ≤ 255
        → Carries p recv send (send_message mq line p' send).0 recv (send_message mq line p' send).1
    unfolding send_message
    send_message-Carries line p' e f w l =
        elim (Option-cases (mq_send send (normal_message line))) [
          | inl g ↦ rw (g, send_message) (still p' e f)
          | inr (q, g) ↦
              let m : Message = normal_message line in
              rw (g, send_message)
                (record {
                  ours_recv = h;
                  ours_send =
                      subst (All IsOurs) (sym (placed send q m g))
                        (All-place IsOurs m (contents send) (inr (line, refl, w, l)) k);
                  taken = ap (λ t. t ++ lines (contents recv)) e;
                  given = λ before c.
                      ap (λ t. before ++ t)
                        (ap lines (placed send q m g) ∙ lines-place_line line (contents send) w k)
                      ∙ sym (append_assoc before (lines (contents send)) (line ∷ []))
                      ∙ ap (λ t. t ++ line ∷ []) (c ∙ sym f);
                })
        ]

    handle_input-Carries :
        (line : Bytes) (p' : Peer)
        → p'.shown ≡ p.shown
        → p'.sent ≡ p.sent
        → Without 0 line
        → length line ≤ 255
        → Carries p recv send (handle_input mq line p' send).0 recv (handle_input mq line p' send).1
    unfolding handle_input go_on
    handle_input-Carries [] p' e f w l = still _ e f
    handle_input-Carries (c ∷ line) p' e f w l = elim (Bool-cases (is_command (c ∷ line))) [
      | inl y ↦ rw (y, handle_input) (send_exit-Carries _ e f)
      | inr n ↦
          let s = send_message-Carries (c ∷ line) p' e f w l in
          rw (n, handle_input)
            (record {
              ours_recv = s.ours_recv;
              ours_send = s.ours_send;
              taken = s.taken;
              given = s.given;
            })
    ]

    type_line-Carries :
        (key : Bool)
        → Carries p recv send (type_line mq key p send).0 recv (type_line mq key p send).1
    unfolding type_line go_on
    type_line-Carries false = still _ refl refl
    type_line-Carries true = elim (Option-cases (read_user_input p.stdin).0) [
      | inl e ↦ rw (e, type_line) (still _ refl refl)
      | inr (line, e) ↦
          let b = read_user_input_bound p.stdin line e in
          rw (e, type_line) (handle_input-Carries line _ refl refl b.0 b.1)
    ]

    pub step_at-Carries :
        (a : PeerAt) (key : Bool)
        → Carries p recv send
            (step_at mq a key p recv send).0
            (step_at mq a key p recv send).1
            (step_at mq a key p recv send).2
    unfolding step_at
    step_at-Carries looking key = look-Carries
    step_at-Carries taking key = take_message-Carries
    step_at-Carries counting key = count_again-Carries
    step_at-Carries typing key = type_line-Carries key
    step_at-Carries over key = still _ refl refl

    pub interrupt_at-Carries :
        (a : PeerAt)
        → Carries p recv send (interrupt_at mq a p send).0 recv (interrupt_at mq a p send).1
    unfolding interrupt_at
    interrupt_at-Carries over = still _ refl refl
    interrupt_at-Carries looking = send_exit-Carries _ refl refl
    interrupt_at-Carries taking = send_exit-Carries _ refl refl
    interrupt_at-Carries counting = send_exit-Carries _ refl refl
    interrupt_at-Carries typing = send_exit-Carries _ refl refl
