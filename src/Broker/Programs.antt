-- ===== src/Broker/Programs.antt =====
-- module3/02/publisher.c and subscriber.c: what the two programs put on the queue from their start to their end,
-- and the broker on a list of texts. `msgsnd` and `msgrcv` are taken to succeed.
pub mod Sessions
pub mod Subscriptions
use eltex_summer.Base.{
  ℕ, zero, suc, ◌+◌, Bool, true, false, ◌&&◌, Option, none, some, List, [], ◌∷◌, ◌++◌, Bytes, codes,
  str_eq, length, take, map, ltb, leb, ◌==◌, if◌then◌else◌, ◌>>=◌,
}
use eltex_summer.Base.Int.{ℤ, pos, int_eq}
use eltex_summer.Contacts.Input.{read_field}
use eltex_summer.Broker.{
  Broker, Served, served, overflow, serve, send_text, request_text, parse_received_message,
}

-- The token in front of others, if it is not empty
unfoldable pub put_token : Bytes → List Bytes → List Bytes
put_token [] rest = rest
put_token (c ∷ token) rest = (c ∷ token) ∷ rest

-- The text up to the first comma, and the tokens behind it
unfoldable pub first_and_rest : Bytes → Bytes × List Bytes
unfolding put_token
first_and_rest [] = ([], [])
first_and_rest (c ∷ s) =
    let (first, rest) = first_and_rest s in
    if c == b',' then ([], put_token first rest) else (c ∷ first, rest)

-- `strtok` with the delimiter ','
unfoldable pub tokens : Bytes → List Bytes
unfolding first_and_rest put_token
tokens s = put_token (first_and_rest s).0 (first_and_rest s).1

unfoldable pub all_fit : List Bytes → Bool
all_fit [] = true
all_fit (t ∷ ts) = leb (length t) 63 && all_fit ts

-- The first ten topics. `none`: one does not fit into its array.
unfoldable pub topics_of : Bytes → Option (List Bytes)
unfolding tokens all_fit
topics_of topics_str =
    let topics = take 10 (tokens topics_str) in if all_fit topics then some topics else none

-- What `run_subscriber` sends at its start and at its end
unfoldable pub subscribe_texts : ℕ → List Bytes → List Bytes
subscribe_texts pid = map (request_text (codes "subscribe") pid)

unfoldable pub unsubscribe_texts : ℕ → List Bytes → List Bytes
unsubscribe_texts pid = map (request_text (codes "unsubscribe") pid)

-- A line of the loop of `run_publisher`, by the rest of the loop
unfoldable pub publish_line : ℕ → Bytes → Bytes → Option (List Bytes) → Option (List Bytes)
publish_line pid topic [] rest = rest
publish_line pid topic (c ∷ input) rest =
    if str_eq (c ∷ input) (codes "quit")
    then some []
    else rest >>= λ texts. some (send_text pid topic (c ∷ input) ∷ texts)

-- The loop of `run_publisher`, with fuel for its rounds; `none`: no end within it
unfoldable pub publish_lines : ℕ → ℕ → Bytes → Bytes → Option (List Bytes)
publish_lines zero pid topic stdin = none
publish_lines (suc fuel) pid topic [] = some []
publish_lines (suc fuel) pid topic (c ∷ stdin) =
    let (input, rest) = read_field 256 [] (c ∷ stdin) in
    publish_line pid topic input (publish_lines fuel pid topic rest)

-- All that `run_publisher` sends; each round takes a byte at least.
unfoldable pub publisher_texts : ℕ → Bytes → Bytes → Option (List Bytes)
publisher_texts pid topic stdin = publish_lines (length stdin + 1) pid topic stdin >>= λ texts.
    some (request_text (codes "register") pid topic ∷ texts)

-- The loop of `run_broker` on texts that come one after the other. `none`: a write outside of an array.
unfoldable pub serve_next :
    (Broker → Option (Broker × List (ℤ × Bytes))) → Served → Option (Broker × List (ℤ × Bytes))
serve_next rest overflow = none
serve_next rest (served b sent) = rest b >>= λ (b', more). some (b', sent ++ more)

unfoldable pub serve_all : List Bytes → Broker → Option (Broker × List (ℤ × Bytes))
serve_all [] b = some (b, [])
serve_all (text ∷ texts) b = serve_next (serve_all texts) (serve b text)

-- What a subscriber receives of the texts that the broker has sent: its message type is its process id.
unfoldable pub received_by : ℤ → List (ℤ × Bytes) → List (Bytes × Bytes)
received_by pid [] = []
received_by pid ((p, text) ∷ sent) =
    let rest = received_by pid sent in
    if int_eq p pid then parse_received_message text ∷ rest else rest

-- What `main` calls for the arguments behind the program's name. `none`: it prints how it is used.
pub data Program : Type 0 where
  run_broker : Program
  run_publisher run_subscriber : Bytes → Program

unfoldable pub with_argument : (Bytes → Program) → List Bytes → Option Program
with_argument program [] = none
with_argument program (a ∷ rest) = some (program a)

unfoldable pub choose_program : List Bytes → Option Program
unfolding with_argument
choose_program [] = none
choose_program (option ∷ rest) =
    if str_eq option (codes "-b")
    then some run_broker
    else if str_eq option (codes "-p")
    then with_argument run_publisher rest
    else if str_eq option (codes "-s")
    then with_argument run_subscriber rest
    else none
