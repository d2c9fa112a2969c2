-- ===== src/UdpEcho.antt =====
-- module3/cross1: the UDP echo server and client over raw sockets (checksum.c, server.c, client.c).
-- A 16-bit field of a header is given by its value in host order; the processor is little-endian.
pub mod Checksum
pub mod Clients
pub mod Numbers
pub mod Exchange
mod Examples
use eltex_summer.Base.{
  ℕ, zero, suc, ◌+◌, ◌-◌, ◌*◌, ◌/◌, ◌%◌, Bool, true, false, not, ◌&&◌, ◌||◌, Option, none, some,
  List, [], ◌∷◌, ◌++◌, Bytes, c_str, codes, starts_with, take, set, get_elem?, length, leb, ltb,
  ◌==◌, if◌then◌else◌, ◌>>=◌,
}
use eltex_summer.Base.Scan.{decimal}

-- `ntohs` and `htons`: the two bytes change places.
unfoldable pub ntohs : ℕ → ℕ
ntohs x = (x % 256) * 256 + x / 256 % 256

-- One round of the summing loops of `udp_checksum`, on a `uint32_t`.
unfoldable pub add_word : ℕ → ℕ → ℕ
add_word sum word =
    let s = (sum + word) % 4294967296 in if s / 65536 % 2 == 1 then (s + 1) % 65536 else s

unfoldable pub add_words : ℕ → List ℕ → ℕ
add_words sum [] = sum
add_words sum (w ∷ ws) = add_words (add_word sum w) ws

-- `ntohs(ptr[i])` for the first `data_len / 2` words of the data.
unfoldable pub data_words : Bytes → List ℕ
data_words [] = []
data_words (x ∷ []) = []
data_words (x ∷ y ∷ data_) = ntohs (x + 256 * y) ∷ data_words data_

-- The last byte of data of odd length.
unfoldable pub odd_byte : Bytes → Option ℕ
odd_byte [] = none
odd_byte (x ∷ []) = some x
odd_byte (x ∷ y ∷ data_) = odd_byte data_

-- The fields that `udp_checksum` reads of the two headers; addresses by their two halves.
pub record Headers : Type 0 where
  pub saddr_high : ℕ
  pub saddr_low : ℕ
  pub daddr_high : ℕ
  pub daddr_low : ℕ
  pub source : ℕ
  pub dest : ℕ
  pub len : ℕ
  pub check : ℕ

-- The pseudo header, for the length of the UDP header and data: 17 is IPPROTO_UDP.
abbrev pub pseudo_words : Headers → ℕ → List ℕ
pseudo_words h total_len =
    h.saddr_high ∷ h.saddr_low ∷ h.daddr_high ∷ h.daddr_low ∷ 17 ∷ total_len % 65536 ∷ []

abbrev pub header_words : Headers → List ℕ
header_words h = h.source ∷ h.dest ∷ h.len ∷ h.check ∷ []

-- The word that the code takes for an odd last byte: `word & 0xFF00` keeps the byte behind the end
-- of the data, `behind`, and not the last byte.
abbrev pub odd_word : ℕ → ℕ → ℕ
odd_word last behind = ntohs ((last + 256 * behind) / 256 % 256 * 256)

-- The branch `if (data_len % 2)`.
unfoldable pub add_odd : ℕ → Option ℕ → ℕ → ℕ
add_odd sum none behind = sum
add_odd sum (some last) behind = add_word sum (odd_word last behind)

-- `udp_checksum`; `behind` is the byte in memory behind the data.
unfoldable pub udp_checksum : Headers → Bytes → ℕ → ℕ
udp_checksum h data_ behind =
    let sum = add_words 0 (pseudo_words h (8 + length data_)) in
    let sum = add_words sum (header_words h) in
    let sum = add_words sum (data_words data_) in
    let sum = add_odd sum (odd_byte data_) behind in ntohs ((4294967295 - sum) % 65536)

-- An address and a port.
pub record Peer : Type 0 where
  pub addr : ℕ
  pub port : ℕ

unfoldable pub same_peer : Peer → Peer → Bool
same_peer p q = (p.addr == q.addr) && (p.port == q.port)

-- `struct client_info`
pub record Client : Type 0 where
  pub peer : Peer
  pub counter : ℕ
  pub active : Bool

-- The first loop of `find_client`, and the search of `remove_client`.
unfoldable pub find_active : List Client → Peer → Option ℕ
find_active [] p = none
find_active (c ∷ clients) p =
    if c.active && same_peer c.peer p
    then some 0
    else elim (find_active clients p) [ none ↦ none | some i ↦ some (suc i) ]

-- The second loop of `find_client`.
unfoldable pub find_free : List Client → Option ℕ
find_free [] = none
find_free (c ∷ clients) =
    if not c.active
    then some 0
    else elim (find_free clients) [ none ↦ none | some i ↦ some (suc i) ]

-- `find_client`: the place of the client and the table. `none`: NULL.
unfoldable pub find_client : List Client → Peer → Option (ℕ × List Client)
find_client clients p = elim (find_active clients p) [
  | some i ↦ some (i, clients)
  | none ↦ elim (find_free clients) [
    | some i ↦ some (i, set clients i (record { peer = p; counter = 1; active = true }))
    | none ↦ none
  ]
]

-- `remove_client`
unfoldable pub remove_client : List Client → Peer → List Client
remove_client clients p = elim (find_active clients p) [
  | none ↦ clients
  | some i ↦ elim (get_elem? clients i) [
    | none ↦ clients
    | some c ↦ set clients i (record c { active = false; counter = 0 })
  ]
]

abbrev pub server_port : ℕ
server_port = 51000

-- A packet as the raw socket delivers it, with its UDP data.
pub record Packet : Type 0 where
  pub from : Peer
  pub dest : ℕ
  pub payload : Bytes

-- `INADDR_LOOPBACK`, the source address of all replies
abbrev pub loopback : ℕ
loopback = 2130706433

-- The text at `data`: `recvfrom` leaves at most 996 bytes behind the headers of 28 bytes in the buffer of 1024,
-- which is 0 before. Where it is full, the bytes `beyond` it follow in memory.
unfoldable pub received_text : Bytes → Bytes → Bytes
received_text beyond payload =
    c_str (if ltb (length payload) 996 then payload else take 996 payload ++ beyond)

-- `snprintf(response, BUFFER_SIZE, "%s %d", data, client->counter)`
unfoldable pub response_text : Bytes → ℕ → Bytes
response_text text counter = take 1023 (text ++ b' ' ∷ decimal counter)

-- A reply: its source, its destination and its text
pub record EchoReply : Type 0 where
  pub source : Peer
  pub destination : Peer
  pub text : Bytes

-- The part of the loop behind `find_client`: the counter goes up and the reply goes out.
unfoldable pub answer : Bytes → Packet → ℕ × List Client → List Client × Option EchoReply
answer beyond pkt (i, clients) = elim (get_elem? clients i) [
  | none ↦ (clients, none)
  | some c ↦ (
    set clients i (record c { counter = c.counter + 1 }),
    some (record {
      source = record { addr = loopback; port = server_port };
      destination = pkt.from;
      text = response_text (received_text beyond pkt.payload) c.counter;
    }),
  )
]

-- One packet in the loop of the server: the table afterwards and the reply. Its IP header has no options.
unfoldable pub receive : Bytes → List Client → Packet → List Client × Option EchoReply
receive beyond clients pkt =
    if pkt.from.port == server_port
    then (clients, none)
    else if not (pkt.dest == server_port)
    then (clients, none)
    else if leb 5 (length pkt.payload) && starts_with pkt.payload (codes "CLOSE")
    then (remove_client clients pkt.from, none)
    else elim (find_client clients pkt.from) [
      | none ↦ (clients, none)
      | some found ↦ answer beyond pkt found
    ]

-- `build_udp_packet`: the header fields of a reply from `src` to `dst` and its checksum, which goes
-- into `udp->check` as a number of the processor. `behind` is the byte behind the data.
unfoldable pub build_udp_packet : Peer → Peer → Bytes → ℕ → Headers
build_udp_packet src dst data_ behind =
    let h : Headers = record {
      saddr_high = src.addr / 65536;
      saddr_low = src.addr % 65536;
      daddr_high = dst.addr / 65536;
      daddr_low = dst.addr % 65536;
      source = src.port;
      dest = dst.port;
      len = (8 + length data_) % 65536;
      check = 0;
    } in
    record h { check = ntohs (udp_checksum h data_ behind) }

-- The tests of the client on a packet: the reply that it shows, if any. `recvfrom` leaves at most 996 bytes of it;
-- a zero is written behind them.
unfoldable pub show_reply : ℕ → ℕ → Packet → Option Bytes
show_reply client_port server_addr pkt =
    if pkt.from.port == client_port
    then none
    else if not (pkt.from.port == server_port)
    then none
    else if not (pkt.dest == client_port)
    then none
    else if not (pkt.from.addr == server_addr)
    then none
    else if ltb 0 (length pkt.payload)
    then some (c_str (take 996 pkt.payload))
    else none
