-- ===== src/QueueChat.antt =====
-- module3/03: the chat of two processes over two POSIX message queues, chat.c with the functions of queue.c and
-- signal.c. The queues are the operating system's: `MessageQueues` is what mq_overview(7) says of them.
-- A step of a process is its code around one call on a queue or one look at the keyboard.
mod Places
mod Steps
pub mod Delivery
pub mod Ends
pub mod Drain
pub mod Names
mod Examples
use eltex_summer.Base.{
  ℕ, zero, suc, ◌+◌, ◌≡◌, ◌≢◌, Bool, true, false, not, ◌&&◌, ◌||◌, Option, none, some, List, [],
  ◌∷◌, ◌++◌, Bytes, codes, c_str, str_eq, length, take, drop, ltb, ◌==◌, if◌then◌else◌,
}
use eltex_summer.Contacts.Input.{fgets}

-- A message in a queue; the programs send a text with the zero byte behind it.
pub record Message : Type 0 where
  pub text : Bytes
  pub priority : ℕ

abbrev pub exit_priority : ℕ
exit_priority = 10

abbrev pub normal_priority : ℕ
normal_priority = 1

abbrev pub exit_message : Message
exit_message = record { text = codes "EXIT" ++ 0 ∷ []; priority = exit_priority }

abbrev pub normal_message : Bytes → Message
normal_message line = record { text = line ++ 0 ∷ []; priority = normal_priority }

-- A new message stands in front of those with a lower priority and behind all others.
unfoldable pub place : Message → List Message → List Message
place m [] = m ∷ []
place m (x ∷ q) = if ltb x.priority m.priority then m ∷ (x ∷ q) else x ∷ place m q

-- Queues, with their messages in the order in which they are received. `none` is a call that fails.
pub record MessageQueues : Type 1 where
  pub Queue : Type 0
  pub contents : Queue → List Message
  pub mq_send : Queue → Message → Option Queue
  pub mq_receive : Queue → Option (Message × Queue)
  pub mq_curmsgs : Queue → Option ℕ
  pub placed :
      (q q' : Queue) (m : Message) → mq_send q m ≡ some q' → contents q' ≡ place m (contents q)
  pub received :
      (q q' : Queue) (m : Message) → mq_receive q ≡ some (m, q') → contents q ≡ m ∷ contents q'
  pub counted : (q : Queue) (n : ℕ) → mq_curmsgs q ≡ some n → n ≡ length (contents q)

-- Where a process stands: at the head of the outer loop, before it takes a message, before it counts the
-- messages again, before the look at the keyboard, at its end.
pub data PeerAt : Type 0 where
  looking taking counting typing over : PeerAt

-- A process, with its buffer for messages, what is still to be typed, and the lines shown and sent so far
pub record Peer : Type 0 where
  pub at : PeerAt
  pub should_exit : Bool
  pub recv_buf : Bytes
  pub stdin : Bytes
  pub shown : List Bytes
  pub sent : List Bytes

-- `buffer[len - 1] = '\0'` at a newline that stands last
unfoldable pub cut_newline : Bytes → Bytes
cut_newline [] = []
cut_newline (c ∷ []) = if c == 10 then [] else c ∷ []
cut_newline (c ∷ (d ∷ s)) = c ∷ cut_newline (d ∷ s)

unfoldable pub kept_line : Bytes → Option Bytes
kept_line [] = none
kept_line (c ∷ s) = some (cut_newline (c ∷ s))

-- `none` is the result 0, otherwise the text in the buffer; and what is left of the input
unfoldable pub read_user_input : Bytes → Option Bytes × Bytes
read_user_input [] = (none, [])
read_user_input (c ∷ stdin) = let (line, rest) = fgets 256 [] (c ∷ stdin) in (kept_line line, rest)

-- The buffer after `mq_receive` has written a message over its front
unfoldable pub fill_buffer : Bytes → Bytes → Bytes
fill_buffer text buffer = text ++ drop (length text) buffer

unfoldable pub handle_received_message : Message → Peer → Peer
handle_received_message m p =
    if m.priority == exit_priority
    then record p { should_exit = true }
    else record p { shown = p.shown ++ c_str p.recv_buf ∷ [] }

-- `receive_message` with the call that handles its result; a message without a byte is passed over.
unfoldable pub handle_bytes : Bytes → Message → Peer → Peer
handle_bytes [] m p = p
handle_bytes (b ∷ text) m p =
    handle_received_message m (record p { recv_buf = fill_buffer (b ∷ text) p.recv_buf })

unfoldable pub is_command : Bytes → Bool
is_command line = str_eq line (codes "exit") || str_eq line (codes "quit")

-- Back to the head of the outer loop, or its end
unfoldable pub go_on : Peer → Peer
go_on p = record p { at = if p.should_exit then PeerAt.over else PeerAt.looking }

module _ (mq : MessageQueues) where
  open mq use {Queue, mq_send, mq_receive, mq_curmsgs}

  unfoldable pub send_exit_message : Queue → Queue
  send_exit_message send = elim (mq_send send exit_message) [ none ↦ send | some q ↦ q ]

  unfoldable pub send_message : Bytes → Peer → Queue → Peer × Queue
  send_message line p send = elim (mq_send send (normal_message line)) [
    | none ↦ (p, send)
    | some q ↦ (record p { sent = p.sent ++ line ∷ [] }, q)
  ]

  -- The head of the outer loop
  unfoldable pub look : Peer → Queue → Peer
  look p recv = elim (mq_curmsgs recv) [
    | none ↦ record p { at = PeerAt.over }
    | some n ↦ record p { at = if ltb 0 n then PeerAt.taking else PeerAt.typing }
  ]

  unfoldable pub take_message : Peer → Queue → Peer × Queue
  take_message p recv = elim (mq_receive recv) [
    | none ↦ (record p { at = PeerAt.counting }, recv)
    | some (m, q) ↦ (record (handle_bytes m.text m p) { at = PeerAt.counting }, q)
  ]

  -- The count at the end of the inner loop, and its condition
  unfoldable pub count_again : Peer → Queue → Peer
  count_again p recv = elim (mq_curmsgs recv) [
    | none ↦ record p { at = PeerAt.typing }
    | some n ↦ record p {
      at =
          if ltb 0 n
          then (if p.should_exit then PeerAt.typing else PeerAt.taking)
          else PeerAt.typing;
    }
  ]

  -- A line that was read
  unfoldable pub handle_input : Bytes → Peer → Queue → Peer × Queue
  handle_input [] p send = (go_on p, send)
  handle_input (c ∷ line) p send =
      if is_command (c ∷ line)
      then (record p { should_exit = true; at = PeerAt.over }, send_exit_message send)
      else let (p', q) = send_message (c ∷ line) p send in (go_on p', q)

  -- The look at the keyboard; `key` is what `check_keyboard_input` returns.
  unfoldable pub type_line : Bool → Peer → Queue → Peer × Queue
  type_line false p send = (go_on p, send)
  type_line true p send =
      let (input, rest) = read_user_input p.stdin in
      elim input [
        | none ↦ (go_on (record p { stdin = rest }), send)
        | some line ↦ handle_input line (record p { stdin = rest }) send
      ]

  -- One step of a process, with the queues that it receives from and sends to
  unfoldable pub step_at : PeerAt → Bool → Peer → Queue → Queue → Peer × Queue × Queue
  step_at looking key p recv send = (look p recv, recv, send)
  step_at taking key p recv send = let (p', q) = take_message p recv in (p', q, send)
  step_at counting key p recv send = (count_again p recv, recv, send)
  step_at typing key p recv send = let (p', q) = type_line key p send in (p', recv, q)
  step_at over key p recv send = (p, recv, send)

  unfoldable pub step : Bool → Peer → Queue → Queue → Peer × Queue × Queue
  step key p recv send = step_at p.at key p recv send

  -- `signal_handler`, which ends the process
  unfoldable pub interrupt_at : PeerAt → Peer → Queue → Peer × Queue
  interrupt_at over p send = (p, send)
  interrupt_at at p send = (record p { at = PeerAt.over }, send_exit_message send)

  -- SIGINT inside of `take_message`, between the return of `mq_receive` and the print of the line: the message
  -- is taken and not shown. At other places it is as before.
  unfoldable pub interrupt_received : PeerAt → Peer → Queue → Queue → Peer × Queue × Queue
  interrupt_received taking p recv send = elim (mq_receive recv) [
    | none ↦ (record p { at = PeerAt.over }, recv, send_exit_message send)
    | some (m, q) ↦ (record p { at = PeerAt.over }, q, send_exit_message send)
  ]
  interrupt_received at p recv send = let (p', send') = interrupt_at at p send in (p', recv, send')

-- The two processes. The creator receives from the first queue, the other one from the second.
pub record System (Q : Type 0) : Type 0 where
  pub creator : Peer
  pub joiner : Peer
  pub queue_1 : Q
  pub queue_2 : Q

-- Who is next, with what it sees of the keyboard; or SIGINT to a process, between two steps or inside of one that
-- takes a message
pub data Turn : Type 0 where
  of_creator of_joiner : Bool → Turn
  interrupt_creator interrupt_joiner : Turn
  cut_creator cut_joiner : Turn

module _ (mq : MessageQueues) where
  open mq use {Queue}

  unfoldable pub turn : Turn → System Queue → System Queue
  turn (of_creator key) s =
      let (p, q1, q2) = step mq key s.creator s.queue_1 s.queue_2 in
      record s { creator = p; queue_1 = q1; queue_2 = q2 }
  turn (of_joiner key) s =
      let (p, q2, q1) = step mq key s.joiner s.queue_2 s.queue_1 in
      record s { joiner = p; queue_1 = q1; queue_2 = q2 }
  turn interrupt_creator s =
      let (p, q2) = interrupt_at mq s.creator.at s.creator s.queue_2 in
      record s { creator = p; queue_2 = q2 }
  turn interrupt_joiner s =
      let (p, q1) = interrupt_at mq s.joiner.at s.joiner s.queue_1 in
      record s { joiner = p; queue_1 = q1 }
  turn cut_creator s =
      let (p, q1, q2) = interrupt_received mq s.creator.at s.creator s.queue_1 s.queue_2 in
      record s { creator = p; queue_1 = q1; queue_2 = q2 }
  turn cut_joiner s =
      let (p, q2, q1) = interrupt_received mq s.joiner.at s.joiner s.queue_2 s.queue_1 in
      record s { joiner = p; queue_1 = q1; queue_2 = q2 }

  unfoldable pub run : List Turn → System Queue → System Queue
  run [] s = s
  run (t ∷ turns) s = run turns (turn t s)

-- A process at the start of its loop, with what will be typed at it
abbrev pub started : Bytes → Bytes → Peer
started junk stdin = record {
  at = PeerAt.looking;
  should_exit = false;
  recv_buf = junk;
  stdin = stdin;
  shown = [];
  sent = [];
}

-- The queues of a process: the one that it receives from and the one that it sends to, by their names
pub record Opened : Type 0 where
  pub queue_recv : Bytes
  pub queue_send : Bytes
  pub is_creator : Bool

-- What `snprintf` leaves of "/%s_1" or "/%s_2" in a buffer of 64 bytes
unfoldable pub queue_name : ℕ → Bytes → Bytes
queue_name digit base = take 63 (b'/' ∷ (base ++ b'_' ∷ (digit ∷ [])))

-- Whether a call of `mq_open` succeeds: the exclusive one, that for the second queue, those for the two
-- queues that exist
pub record Openings : Type 0 where
  pub excl : Bool
  pub second : Bool
  pub existing_1 : Bool
  pub existing_2 : Bool

-- The queues, if all goes well, and the names unlinked
unfoldable pub init_queues : Bytes → Openings → Option Opened × List Bytes
init_queues base o =
    let queue_name_1 = queue_name b'1' base in
    let queue_name_2 = queue_name b'2' base in
    if o.excl
    then (if o.second
        then (
          some (record { queue_recv = queue_name_1; queue_send = queue_name_2; is_creator = true }),
          [],
        )
        else (none, queue_name_1 ∷ []))
    else if o.existing_1 && o.existing_2
    then (
      some (record { queue_recv = queue_name_2; queue_send = queue_name_1; is_creator = false }),
      [],
    )
    else (none, [])

-- The names that `cleanup_queues` unlinks
unfoldable pub cleanup_queues : Bytes → Opened → List Bytes
cleanup_queues base o =
    if o.is_creator then queue_name b'1' base ∷ (queue_name b'2' base ∷ []) else []
