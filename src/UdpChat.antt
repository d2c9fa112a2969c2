-- ===== src/UdpChat.antt =====
-- module3/06: the chat by broadcast datagrams, chat.c with the functions of utils.c and network.c. What
-- `select` reports comes as a list of events; a datagram that is sent goes to all who listen on the
-- port, the sender included.
pub mod Delivery
mod Examples
use eltex_summer.Base.{
  ℕ, zero, suc, Bool, true, false, not, ◌&&◌, ◌||◌, Option, none, some, List, [], ◌∷◌, ◌++◌, Bytes,
  codes, c_str, str_eq, find_text, take, leb, ◌==◌, if◌then◌else◌, is_some,
}
use eltex_summer.Base.Scan.{is_digit}

-- `isalnum` in the C locale
unfoldable pub is_alnum : ℕ → Bool
is_alnum c = is_digit c || ((leb b'A' c && leb c b'Z') || (leb b'a' c && leb c b'z'))

unfoldable pub all_in_name : Bytes → Bool
all_in_name [] = true
all_in_name (c ∷ s) = (is_alnum c || (c == b'_')) && all_in_name s

unfoldable pub is_valid_nickname : Bytes → Bool
is_valid_nickname [] = false
is_valid_nickname (c ∷ s) = all_in_name (c ∷ s)

-- `is_my_message`, with the global `nickname` as an argument
unfoldable pub is_my_message : Bytes → Bytes → Bool
is_my_message nickname message = is_some (find_text message nickname)

-- What `snprintf` writes into a buffer of 1024 bytes
unfoldable pub cut_message : Bytes → Bytes
cut_message = take 1023

unfoldable pub hello_message : Bytes → Bytes
hello_message nickname = cut_message (b'[' ∷ (nickname ++ codes "] joined the chat"))

unfoldable pub leave_message_of : Bytes → Bytes
leave_message_of nickname = cut_message (b'[' ∷ (nickname ++ codes "] left the chat"))

unfoldable pub chat_message : Bytes → Bytes → Bytes
chat_message nickname text = cut_message (b'[' ∷ (nickname ++ (codes "]: " ++ text)))

-- A chat that runs or has ended, with the datagrams sent and the lines shown so far
pub record ChatRun : Type 0 where
  pub goes_on : Bool
  pub sent : List Bytes
  pub shown : List Bytes

-- A line that the user typed, without its newline; a datagram; a failed `recvfrom` or `select`; SIGINT
pub data ChatEvent : Type 0 where
  typed arrived : Bytes → ChatEvent
  failed interrupted : ChatEvent

-- `handle_exit`
unfoldable pub handle_exit : Bytes → ChatRun → ChatRun
handle_exit nickname r = record r {
  goes_on = false;
  sent = r.sent ++ leave_message_of nickname ∷ [];
}

unfoldable pub handle_line : Bytes → Bytes → ChatRun → ChatRun
handle_line nickname [] r = r
handle_line nickname (c ∷ line) r =
    if str_eq (c ∷ line) (codes "/quit")
    then handle_exit nickname r
    else if str_eq (c ∷ line) (codes "/whoami")
    then record r { shown = r.shown ++ (codes "Your nickname: " ++ nickname) ∷ [] }
    else record r { sent = r.sent ++ chat_message nickname (c ∷ line) ∷ [] }

-- A datagram is cut off at 1023 bytes and read as a C string; an empty one is passed over.
unfoldable pub handle_datagram : Bytes → Bytes → ChatRun → ChatRun
handle_datagram nickname [] r = r
handle_datagram nickname (b ∷ datagram) r =
    let message = c_str (take 1023 (b ∷ datagram)) in
    if is_my_message nickname message then r else record r { shown = r.shown ++ message ∷ [] }

unfoldable pub handle_event : Bytes → ChatEvent → ChatRun → ChatRun
handle_event nickname (typed line) r = handle_line nickname line r
handle_event nickname (arrived datagram) r = handle_datagram nickname datagram r
handle_event nickname failed r = record r { goes_on = false }
handle_event nickname interrupted r = handle_exit nickname r

-- The loop of `main` on the events that come
unfoldable pub chat_loop : Bytes → List ChatEvent → ChatRun → ChatRun
chat_loop nickname [] r = r
chat_loop nickname (e ∷ events) r =
    let again = chat_loop nickname events (handle_event nickname e r) in
    if r.goes_on then again else r

-- `main` with its one argument. `none`: the name is refused.
unfoldable pub run_chat : Bytes → List ChatEvent → Option ChatRun
run_chat name events =
    let nickname = take 49 name in
    let started : ChatRun = record {
      goes_on = true;
      sent = hello_message nickname ∷ [];
      shown = [];
    } in
    if is_valid_nickname name then some (chat_loop nickname events started) else none
