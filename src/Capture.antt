-- ===== src/Capture.antt =====
-- module3/08/raw_udp_capture.c: the capture of UDP packets on a raw socket. The buffer of 65536 bytes is a
-- function from the index to the byte there; `recv` overwrites its front only. `packets` stands for
-- the first `packet_count` entries of the array. `Env` is what belongs to the operating system.
pub mod Frames
pub mod Selection
pub mod Filters
pub mod Report
mod Examples
use eltex_summer.Base.{
  ℕ, zero, suc, ◌+◌, ◌-◌, ◌*◌, ◌%◌, Bool, true, false, not, ◌&&◌, ◌||◌, Option, none, some, List,
  [], ◌∷◌, ◌++◌, Bytes, codes, str_eq, ltb, leb, ◌==◌, if◌then◌else◌, ◌>>=◌, length, take,
  get_elem?,
}
use eltex_summer.Base.Int.{ℤ, pos, negsuc}

abbrev pub Buffer : Type 0
Buffer = ℕ → ℕ

abbrev pub buffer_size : ℕ
buffer_size = 65536

-- `inet_ntop` of four bytes, whether the `malloc` of packet `n` succeeds, and its time in
-- seconds and microseconds
pub record Env : Type 0 where
  pub inet_ntop : ℕ → ℕ → ℕ → ℕ → Bytes
  pub malloc_ok : ℕ → Bool
  pub time : ℕ → ℕ × ℕ

pub record Captured : Type 0 where
  pub timestamp : ℕ × ℕ
  pub src_mac : Bytes
  pub dst_mac : Bytes
  pub src_ip : Bytes
  pub dst_ip : Bytes
  pub src_port : ℕ
  pub dst_port : ℕ
  pub udp_length : ℕ
  pub payload : Option Bytes
  pub payload_length : ℕ

-- `filter_t`; an address is `none` where its flag `use_…` is 0.
pub record PortFilter : Type 0 where
  pub name : Bytes
  pub src_port : ℕ
  pub dst_port : ℕ
  pub src_ip : Option Bytes
  pub dst_ip : Option Bytes
  pub use_src_port : Bool
  pub use_dst_port : Bool

pub record CaptureState : Type 0 where
  pub running : Bool
  pub packets : List Captured
  pub max_packets : ℕ
  pub filters : List PortFilter
  pub current_filter_index : ℕ

-- `strncpy` into a field for an address, which has room for 15 bytes
unfoldable pub address_field : Option Bytes → Option Bytes
address_field none = none
address_field (some ip) = some (take 15 ip)

unfoldable pub add_filter :
    Bytes → ℕ → ℕ → Option Bytes → Option Bytes → List PortFilter → List PortFilter
add_filter name src_port dst_port src_ip dst_ip filters =
    if leb 10 (length filters)
    then filters
    else filters
      ++ record {
        name = take 49 name;
        src_port = src_port;
        dst_port = dst_port;
        src_ip = address_field src_ip;
        dst_ip = address_field dst_ip;
        use_src_port = not (src_port == 0);
        use_dst_port = not (dst_port == 0);
      }
        ∷ []

unfoldable pub init_filters : List PortFilter
init_filters = add_filter (codes "NTP (p 123)") 123 123 none none (
    add_filter (codes "DNS (p 53)") 53 53 none none
      (add_filter (codes "Chat messages (p 51000)") 51000 51000 none none []))

-- `f->use_src_ip && strcmp(src_ip, f->src_ip) != 0`
unfoldable pub wrong_address : Option Bytes → Bytes → Bool
wrong_address none ip = false
wrong_address (some wanted) ip = not (str_eq ip wanted)

unfoldable pub uses_nothing : PortFilter → Bool
uses_nothing f = elim f.src_ip [
  | some ip ↦ false
  | none ↦ elim f.dst_ip [ some ip ↦ false | none ↦ not f.use_src_port && not f.use_dst_port ]
]

-- The tests of the ports
unfoldable pub wrong_port : PortFilter → ℕ → ℕ → Bool
wrong_port f src_port dst_port =
    if (f.src_port == f.dst_port) && f.use_src_port && f.use_dst_port
    then not ((src_port == f.src_port) || (dst_port == f.dst_port))
    else (f.use_src_port && not (src_port == f.src_port))
      || (f.use_dst_port && not (dst_port == f.dst_port))

-- `apply_filter`, on the addresses as texts and the ports; an entry that is not filled in is zero.
unfoldable pub apply_filter : List PortFilter → ℕ → Bytes → Bytes → ℕ → ℕ → Bool
apply_filter [] index src_ip dst_ip src_port dst_port = true
apply_filter (first ∷ filters) index src_ip dst_ip src_port dst_port =
    elim (get_elem? (first ∷ filters) index) [
      | none ↦ true
      | some f ↦
          if uses_nothing f
          then true
          else if wrong_port f src_port dst_port
          then false
          else not (wrong_address f.src_ip src_ip) && not (wrong_address f.dst_ip dst_ip)
    ]

-- `recv`: the bytes of the frame stand in front of what the buffer held.
unfoldable pub receive_into : Buffer → Bytes → Buffer
receive_into buffer [] i = buffer i
receive_into buffer (b ∷ frame) zero = b
receive_into buffer (b ∷ frame) (suc i) = receive_into (λ j. buffer (suc j)) frame i

-- Two bytes in network order, and `n` bytes from an index on
unfoldable pub word_at : Buffer → ℕ → ℕ
word_at buffer i = buffer i * 256 + buffer (suc i)

unfoldable pub bytes_at : Buffer → ℕ → ℕ → Bytes
bytes_at buffer i zero = []
bytes_at buffer i (suc n) = buffer i ∷ bytes_at buffer (suc i) n

-- The address at an index as a text
unfoldable pub ip_at : Env → Buffer → ℕ → Bytes
ip_at env buffer i = env.inet_ntop (buffer i) (buffer (i + 1)) (buffer (i + 2)) (buffer (i + 3))

-- Where the UDP header stands: behind the Ethernet header and `ihl * 4` bytes
unfoldable pub udp_at : Buffer → ℕ
udp_at buffer = 14 + buffer 14 % 16 * 4

-- `length - payload_offset`, in the `uint16_t` field
unfoldable pub payload_length : Buffer → ℕ → ℕ
payload_length buffer len = (len + 65536 - (udp_at buffer + 8)) % 65536

-- The entry for a frame of `len` bytes in the buffer, the `n`-th one
unfoldable pub decode : Env → Buffer → ℕ → ℕ → Captured
decode env buffer len n =
    let size = payload_length buffer len in
    record {
      timestamp = env.time n;
      src_mac = bytes_at buffer 6 6;
      dst_mac = bytes_at buffer 0 6;
      src_ip = ip_at env buffer 26;
      dst_ip = ip_at env buffer 30;
      src_port = word_at buffer (udp_at buffer);
      dst_port = word_at buffer (udp_at buffer + 2);
      udp_length = word_at buffer (udp_at buffer + 4);
      payload =
          if ltb 0 size && env.malloc_ok n
          then some (bytes_at buffer (udp_at buffer + 8) size)
          else none;
      payload_length = size;
    }

-- `add_packet`. `none`: the payload is copied from beyond the buffer.
unfoldable pub add_packet : Env → Buffer → ℕ → CaptureState → Option CaptureState
add_packet env buffer len s =
    let n = length s.packets in
    let size = payload_length buffer len in
    if leb s.max_packets n
    then some (record s { running = false })
    else if (ltb 0 size && env.malloc_ok n) && ltb buffer_size (udp_at buffer + 8 + size)
    then none
    else some (record s { packets = s.packets ++ decode env buffer len n ∷ [] })

-- The tests of `process_packet`
unfoldable pub is_wanted : Env → Buffer → CaptureState → Bool
is_wanted env buffer s =
    (word_at buffer 12 == 2048)
    && ((buffer 23 == 17)
        && apply_filter s.filters s.current_filter_index (ip_at env buffer 26) (ip_at env buffer 30)
            (word_at buffer (udp_at buffer)) (word_at buffer (udp_at buffer + 2)))

unfoldable pub process_packet : Env → Buffer → ℕ → CaptureState → Option CaptureState
process_packet env buffer len s =
    if is_wanted env buffer s then add_packet env buffer len s else some s

-- What `recv` gives, and a signal between two calls
pub data Event : Type 0 where
  interrupted failed signalled : Event
  frame : Bytes → Event

-- What the loop does with what `recv` gave; `again` is the rest of the loop. `recv` cuts a frame off at
-- the size of the buffer, and a frame of no bytes is not processed.
unfoldable pub on_event :
    Env
    → (Buffer → CaptureState → Option CaptureState)
    → Event
    → Buffer
    → CaptureState
    → Option CaptureState
on_event env again interrupted buffer s = again buffer s
on_event env again failed buffer s = some s
on_event env again signalled buffer s = again buffer (record s { running = false })
on_event env again (frame []) buffer s = again buffer s
on_event env again (frame (b ∷ bytes)) buffer s =
    let got = take buffer_size (b ∷ bytes) in
    let after = receive_into buffer got in
    process_packet env after (length got) s >>= λ t. again after t

-- The loop of `capture_packets` on the events that come; it waits when there are none left.
unfoldable pub capture : Env → List Event → Buffer → CaptureState → Option CaptureState
capture env [] buffer s = some s
capture env (event ∷ events) buffer s =
    if s.running && ltb (length s.packets) s.max_packets
    then on_event env (capture env events) event buffer s
    else some s

-- The state in which `main` starts the capture, for the filter that was chosen: 1 to 3
unfoldable pub chosen_filter : Option ℤ → ℕ
chosen_filter none = 0
chosen_filter (some (negsuc n)) = 0
chosen_filter (some (pos choice)) = if ltb choice 1 || ltb 3 choice then 0 else choice - 1

unfoldable pub start_capture : Option ℤ → CaptureState
start_capture choice = record {
  running = true;
  packets = [];
  max_packets = 1000;
  filters = init_filters;
  current_filter_index = chosen_filter choice;
}
