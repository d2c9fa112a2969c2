-- ===== src/Chat.antt =====
-- module3/07/server.c: a TCP chat server that also takes and hands out files. The list of clients
-- stands for the first `client_count` entries of `clients`; their field `connected` is never read.
-- A negative `total_size` of a message acts like 0, so it is a natural number. The byte list `data_`
-- is the buffer of 4096 bytes, without the bytes that nobody has written. Names are those of messages whose
-- arrays hold a zero byte behind them.
pub mod Broadcast
pub mod Files
pub mod Terminal
pub mod Delivery
pub mod Uploads
pub mod Exchange
pub mod Interleaved
pub mod Handling
pub mod Loop
pub mod Shutdown
mod Examples
use eltex_summer.Base.{
  ℕ, zero, suc, ◌+◌, ◌*◌, Bool, true, false, not, ◌||◌, ◌&&◌, Option, none, some, List, [], ◌∷◌,
  ◌++◌, Bytes, codes, str_eq, take, drop, get_elem?, map, length, leb, ltb, ◌==◌, if◌then◌else◌,
  ◌>>=◌, ◌≡◌,
}
use eltex_summer.Base.Int.{ℤ, pos}

pub record Message : Type 0 where
  pub kind : ℕ
  pub nickname : Bytes
  pub data_ : Bytes
  pub data_len : ℤ
  pub total_size : ℕ
  pub filename : Bytes

pub record Client : Type 0 where
  pub fd : ℕ
  pub nickname : Bytes

-- The calls of `send_all`, failed ones too, in their order.
abbrev pub Attempts : Type 0
Attempts = List (ℕ × Message)

-- What the surroundings decide: whether a call of `send_all` comes back at all, by the calls before it, and whether
-- it then succeeds; and whether a file can be opened for writing. A call does not come back where the socket
-- answers EAGAIN again and again, or where SIGPIPE ends the server.
pub record Env : Type 0 where
  pub returns : Attempts → ℕ → Bool
  pub accepts : Attempts → ℕ → Bool
  pub fopen_ok : Bytes → Bool

-- All calls of `send_all` come back.
abbrev pub Returning : Env → Type 0
Returning env = (sent : Attempts) (fd : ℕ) → env.returns sent fd ≡ true

-- The message that `remove_client` sends to those who stay.
unfoldable pub leave_message : Bytes → Message
leave_message nickname = record {
  kind = 2;
  nickname = nickname;
  data_ = b'[' ∷ (nickname ++ codes "] left the chat");
  data_len = pos 0;
  total_size = 0;
  filename = [];
}

-- The message that `add_client` sends to the others.
unfoldable pub join_message : Bytes → Message
join_message nickname = record {
  kind = 1;
  nickname = take 49 nickname;
  data_ = b'[' ∷ (nickname ++ codes "] joined the chat");
  data_len = pos 0;
  total_size = 0;
  filename = [];
}

-- The search of `remove_client`: the first client with that descriptor, and the others.
unfoldable pub take_client : List Client → ℕ → Option (Client × List Client)
take_client [] fd = none
take_client (c ∷ clients) fd =
    if c.fd == fd
    then some (c, clients)
    else elim (take_client clients fd) [ none ↦ none | some (d, rest) ↦ some (d, c ∷ rest) ]

-- `clients[i].fd == sender_fd`
unfoldable pub is_sender : Option ℕ → ℕ → Bool
is_sender none fd = false
is_sender (some sender) fd = fd == sender

-- The clients that are left and the calls of `send_all` so far.
abbrev pub Room : Type 0
Room = List Client × Attempts

-- How a message is passed on, from which entry on and without which sender.
abbrev pub Relay : Type 0
Relay = Message → Option ℕ → ℕ → Room → Option Room

-- `remove_client`, by the `broadcast_message` that it calls.
unfoldable pub remove_by : Relay → ℕ → Room → Option Room
remove_by again fd (clients, sent) = elim (take_client clients fd) [
  | none ↦ some (clients, sent)
  | some (c, rest) ↦ again (leave_message c.nickname) none 0 (rest, sent)
]

-- One round of the loop in `broadcast_message` and those behind it. A client whose socket refuses the
-- message is removed in the middle of the loop, which goes on at the same index.
unfoldable pub offer : Relay → Env → Message → Option ℕ → ℕ → Client → Room → Option Room
offer again env msg sender i c (clients, sent) = elim (is_sender sender c.fd) [
  | true ↦ again msg sender (i + 1) (clients, sent)
  | false ↦ elim (env.returns sent c.fd) [
    | false ↦ none
    | true ↦ elim (env.accepts sent c.fd) [
      | true ↦ again msg sender (i + 1) (clients, sent ++ (c.fd, msg) ∷ [])
      | false ↦ remove_by again c.fd (clients, sent ++ (c.fd, msg) ∷ []) >>= λ room.
          again msg sender i room
    ]
  ]
]

-- `broadcast_message` from entry `i` on. The sender is `none` where the code passes -1.
-- `none`: a call of `send_all` does not come back, or no fuel is left.
unfoldable pub broadcast_from : Env → ℕ → Relay
broadcast_from env zero msg sender i room = none
broadcast_from env (suc fuel) msg sender i (clients, sent) = elim (get_elem? clients i) [
  | none ↦ some (clients, sent)
  | some c ↦ offer (broadcast_from env fuel) env msg sender i c (clients, sent)
]

-- The depth of the calls for `n` clients: a round removes a client or goes on to the next one.
abbrev pub depth : ℕ → ℕ
depth zero = 0
depth (suc n) = depth n + suc n

abbrev pub broadcast_fuel : ℕ → ℕ
broadcast_fuel n = depth n + n + 1

unfoldable pub broadcast_message : Env → Message → Option ℕ → Room → Option Room
broadcast_message env msg sender room =
    broadcast_from env (broadcast_fuel (length room.0)) msg sender 0 room

unfoldable pub remove_client : Env → ℕ → Room → Option Room
remove_client env fd room = remove_by (broadcast_from env (broadcast_fuel (length room.0))) fd room

-- `add_client`
unfoldable pub add_client : Env → ℕ → Bytes → Room → Option Room
add_client env fd nickname (clients, sent) =
    if leb 100 (length clients)
    then some (clients, sent)
    else broadcast_message env (join_message nickname) (some fd)
        (clients ++ record { fd = fd; nickname = take 49 nickname } ∷ [], sent)
