-- ===== src/Broker/Texts.antt =====
-- The texts on the queue: what publishers and subscribers send is what the broker parses, and what
-- the broker delivers is what a subscriber reads.
use eltex_summer.Base.{
  ℕ, ◌<◌, ◌≤◌, ◌≡◌, refl, ◌∙◌, false, some, [], ◌∷◌, ◌++◌, Bytes, Without, split_at, none, ◌==◌,
  codes, length, map, arith, leb, str_eq,
}
use eltex_summer.Base.Int.{ℤ, pos}
use eltex_summer.Base.Scan.{decimal, atoi-decimal, decimal-Without, is_digit}
use eltex_summer.Broker.{
  Broker, parsed, served, overflow, parse_message, parse_rest, parse_received_message, send_text,
  request_text, find_subscribers, send, serve, run_command,
}

pub split_at-append :
    (b : ℕ) (xs ys : Bytes) → Without b xs → split_at b (xs ++ b ∷ ys) ≡ some (xs, ys)
unfolding split_at
split_at-append b [] ys h = ground arith
split_at-append b (x ∷ xs) ys h = ground (arith, split_at-append b xs ys h.1)

decimal_no_comma : (n : ℕ) → Without b',' (decimal n)
unfolding is_digit
decimal_no_comma n = decimal-Without b',' n refl

parse_rest-payload :
    (command : Bytes) (pid : ℤ) (topic payload : Bytes)
    → Without b',' topic
    → length topic < 64
    → length payload < 256
    → parse_rest command pid (topic ++ b',' ∷ payload) ≡ parsed command pid topic payload
unfolding parse_rest
parse_rest-payload command pid topic payload h k l =
    rw (split_at-append b',' topic payload h, parse_rest) (ground arith)

parse_message-head :
    (command : Bytes) (pid : ℕ) (p4 : Bytes)
    → Without b',' command
    → length command < 32
    → parse_message (command ++ b',' ∷ (decimal pid ++ b',' ∷ p4)) ≡ parse_rest command (pos pid) p4
unfolding parse_message
parse_message-head command pid p4 h k =
    let small : leb 32 (length command) ≡ false = ground arith in
    rw (
      split_at-append b',' command (decimal pid ++ b',' ∷ p4) h,
      parse_message,
      small,
      split_at-append b',' (decimal pid) p4 (decimal_no_comma pid),
      atoi-decimal pid,
    )

split_at-none : (b : ℕ) (s : Bytes) → Without b s → split_at b s ≡ none
unfolding split_at
split_at-none b [] h = refl
split_at-none b (c ∷ s) h =
    let other : (c == b) ≡ false = ground (arith, h.0) in rw (other, split_at-none b s h.1) refl

-- The same of a text without a line.
pub parse_message-request_text :
    (command : Bytes) (pid : ℕ) (topic : Bytes)
    → Without b',' command
    → length command < 32
    → Without b',' topic
    → length topic < 64
    → parse_message (request_text command pid topic) ≡ parsed command (pos pid) topic []
unfolding request_text parse_rest
parse_message-request_text command pid topic h k t l =
    let small : leb 64 (length topic) ≡ false = ground arith in
    parse_message-head command pid topic h k
    ∙ rw (split_at-none b',' topic t, parse_rest, small) refl

-- The broker parses what a publisher sends for a line into its parts, commas in the line included.
pub parse_message-send_text :
    (pid : ℕ) (topic input : Bytes)
    → Without b',' topic
    → length topic < 64
    → length input < 256
    → parse_message (send_text pid topic input) ≡ parsed (codes "send") (pos pid) topic input
unfolding send_text
parse_message-send_text pid topic input h k l =
    parse_message-head (codes "send") pid (topic ++ b',' ∷ input) (omega arith) (omega arith)
    ∙ parse_rest-payload (codes "send") (pos pid) topic input h k l

-- A line that a publisher sends goes to the processes that `find_subscribers` finds, in their
-- order, as one text each, from which `parse_received_message` takes back the topic and the line.
-- The broker itself stays as it is. The topic has no comma in it and at most 63 bytes, the line
-- has at most 255, and there are at most 100 subscribers of the topic.
pub serve-send_text :
    (b : Broker) (pid : ℕ) (topic input : Bytes)
    → Without b',' topic
    → length topic < 64
    → length input < 256
    → length (find_subscribers b.subscriptions topic) ≤ 100
    → (text : Bytes) × (serve b (send_text pid topic input)
        ≡ served b (map (λ p. (p, text)) (find_subscribers b.subscriptions topic)))
      × (parse_received_message text ≡ (topic, input))
unfolding serve run_command send parse_received_message str_eq
serve-send_text b pid topic input h k l m = (
  topic ++ b',' ∷ input,
  rw (parse_message-send_text pid topic input h k l, serve) (ground arith),
  rw (split_at-append b',' topic input h, parse_received_message),
)

-- The defect: with more than 100 subscribers of a topic, a line sent on it writes past the end of
-- the array that `find_subscribers` fills. The topic has no comma in it and at most 63 bytes, the
-- line at most 255.
pub serve_overflow :
    (b : Broker) (pid : ℕ) (topic input : Bytes)
    → Without b',' topic
    → length topic < 64
    → length input < 256
    → 100 < length (find_subscribers b.subscriptions topic)
    → serve b (send_text pid topic input) ≡ overflow
unfolding serve run_command send str_eq
serve_overflow b pid topic input h k l m =
    rw (parse_message-send_text pid topic input h k l, serve) (ground arith)
