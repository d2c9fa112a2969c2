-- ===== src/Broker.antt =====
-- module3/02/broker.c and utils.c: a publish/subscribe broker on a message queue, and the texts that
-- publisher.c and subscriber.c send to it. The lists stand for the first `sub_count` and `pub_count`
-- entries of the two tables.
pub mod Tables
pub mod Valid
pub mod Delivery
pub mod Texts
pub mod Programs
mod Examples
use eltex_summer.Base.{
  ℕ, ◌+◌, Bool, true, false, ◌&&◌, ◌||◌, Option, none, some, List, [], ◌∷◌, ◌++◌, Bytes, codes,
  str_eq, split_at, map, length, ltb, leb, if◌then◌else◌,
}
use eltex_summer.Base.Int.{ℤ, int_eq}
use eltex_summer.Base.Scan.{atoi, decimal}

pub record Subscription : Type 0 where
  pub pid : ℤ
  pub topic : Bytes

pub record Broker : Type 0 where
  pub subscriptions : List Subscription
  pub publishers : List ℤ

-- `fault`: a `strcpy` past the end of its buffer.
pub data Parsed : Type 0 where
  malformed : Parsed
  parsed : Bytes → ℤ → Bytes → Bytes → Parsed
  fault : Parsed

-- The last two fields, from what stands behind the second comma.
unfoldable pub parse_rest : Bytes → ℤ → Bytes → Parsed
parse_rest command pid p4 = elim (split_at b',' p4) [
  | none ↦ if leb 64 (length p4) then fault else parsed command pid p4 []
  | some (topic, payload) ↦
      if leb 64 (length topic) || leb 256 (length payload)
      then fault
      else parsed command pid topic payload
]

-- `parse_message`, with the buffers of `run_broker`.
unfoldable pub parse_message : Bytes → Parsed
parse_message input = elim (split_at b',' input) [
  | none ↦ malformed
  | some (command, p2) ↦ if leb 32 (length command) then fault else elim (split_at b',' p2) [
    | none ↦ malformed
    | some (pid, p4) ↦ parse_rest command (atoi pid) p4
  ]
]

-- `parse_received_message`
unfoldable pub parse_received_message : Bytes → Bytes × Bytes
parse_received_message input = elim (split_at b',' input) [
  | none ↦ (codes "unknown", input)
  | some (topic, payload) ↦ (topic, payload)
]

-- `subscriptions[i].pid == pid && strcmp(subscriptions[i].topic, topic) == 0`
unfoldable pub matches : Subscription → ℤ → Bytes → Bool
matches s pid topic = int_eq s.pid pid && str_eq s.topic topic

unfoldable pub is_subscribed : List Subscription → ℤ → Bytes → Bool
is_subscribed [] pid topic = false
is_subscribed (s ∷ subs) pid topic = matches s pid topic || is_subscribed subs pid topic

-- `find_subscribers`
unfoldable pub find_subscribers : List Subscription → Bytes → List ℤ
find_subscribers [] topic = []
find_subscribers (s ∷ subs) topic =
    let rest = find_subscribers subs topic in if str_eq s.topic topic then s.pid ∷ rest else rest

-- `remove_subscription`: the entries behind the first that matches move up.
unfoldable pub remove_subscription : List Subscription → ℤ → Bytes → List Subscription
remove_subscription [] pid topic = []
remove_subscription (s ∷ subs) pid topic =
    if matches s pid topic then subs else s ∷ remove_subscription subs pid topic

unfoldable pub is_registered : List ℤ → ℤ → Bool
is_registered [] pid = false
is_registered (p ∷ pubs) pid = int_eq p pid || is_registered pubs pid

-- `remove_publisher`
unfoldable pub remove_publisher : List ℤ → ℤ → List ℤ
remove_publisher [] pid = []
remove_publisher (p ∷ pubs) pid = if int_eq p pid then pubs else p ∷ remove_publisher pubs pid

-- The reaction to one message: the broker afterwards and the texts that it tries to send.
-- `overflow`: a write past the end of an array.
pub data Served : Type 0 where
  served : Broker → List (ℤ × Bytes) → Served
  overflow : Served

unfoldable pub subscribe : Broker → ℤ → Bytes → Broker
subscribe b pid topic =
    if is_subscribed b.subscriptions pid topic || leb 200 (length b.subscriptions)
    then b
    else record b { subscriptions = b.subscriptions ++ record { pid = pid; topic = topic } ∷ [] }

unfoldable pub unsubscribe : Broker → ℤ → Bytes → Broker
unsubscribe b pid topic = record b { subscriptions = remove_subscription b.subscriptions pid topic }

unfoldable pub register : Broker → ℤ → Broker
register b pid =
    if is_registered b.publishers pid || leb 100 (length b.publishers)
    then b
    else record b { publishers = b.publishers ++ pid ∷ [] }

-- The `send` command: `subscribers` has room for 100 process ids.
unfoldable pub send : Broker → Bytes → Bytes → Served
send b topic payload =
    let found = find_subscribers b.subscriptions topic in
    if ltb 100 (length found)
    then overflow
    else served b (map (λ p. (p, topic ++ b',' ∷ payload)) found)

unfoldable pub run_command : Broker → Bytes → ℤ → Bytes → Bytes → Served
run_command b command pid topic payload =
    if str_eq command (codes "subscribe")
    then served (subscribe b pid topic) []
    else if str_eq command (codes "unsubscribe")
    then served (unsubscribe b pid topic) []
    else if str_eq command (codes "register")
    then served (register b pid) []
    else if str_eq command (codes "send")
    then send b topic payload
    else served b []

-- One round of the loop of `run_broker`, for the text of the message received.
unfoldable pub serve : Broker → Bytes → Served
serve b text = elim (parse_message text) [
  | malformed ↦ served b []
  | fault ↦ overflow
  | parsed command pid topic payload ↦ run_command b command pid topic payload
]

-- `broker_signal_handler`: the processes that get SIGINT, in order.
unfoldable pub interrupted : Broker → List ℤ
interrupted b = b.publishers ++ map (λ s. s.pid) b.subscriptions

-- What `run_publisher` sends for a line, and what the other programs send.
unfoldable pub send_text : ℕ → Bytes → Bytes → Bytes
send_text pid topic input = codes "send" ++ b',' ∷ (decimal pid ++ b',' ∷ (topic ++ b',' ∷ input))

unfoldable pub request_text : Bytes → ℕ → Bytes → Bytes
request_text command pid topic = command ++ b',' ∷ (decimal pid ++ b',' ∷ topic)
