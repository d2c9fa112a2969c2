-- ===== src/Capture/Report.antt =====
-- The texts about the captured packets, of module3/08/raw_udp_capture.c: `print_mac`, the report that
-- `save_to_file` writes, and the lines of `print_packet` that show the data.
use eltex_summer.Base.{
  ℕ, suc, ◌+◌, ◌-◌, ◌*◌, ◌/◌, ◌%◌, ◌<◌, ◌≡◌, refl, ap, Bool, true, false, ◌&&◌, Option, none, some,
  List, [], ◌∷◌, ◌++◌, Bytes, codes, ltb, leb, ◌==◌, if◌then◌else◌, length, take, All, arith,
}
use eltex_summer.Base.Scan.{decimal}
use eltex_summer.Base.Int.{ℤ, pos, negsuc}
use eltex_summer.Capture.{Captured}

-- A digit of `%x`, and a byte by `%02x`
unfoldable pub hex_digit : ℕ → ℕ
hex_digit d = if ltb d 10 then b'0' + d else b'a' + (d - 10)

unfoldable pub hex_byte : ℕ → Bytes
hex_byte b = hex_digit (b / 16 % 16) ∷ hex_digit (b % 16) ∷ []

-- `print_mac`
unfoldable pub print_mac : Bytes → Bytes
print_mac [] = []
print_mac (b ∷ []) = hex_byte b
print_mac (b ∷ c ∷ mac) = hex_byte b ++ b':' ∷ print_mac (c ∷ mac)

-- The loop that prints `"%02x "` for each byte
unfoldable pub hex_bytes : Bytes → Bytes
hex_bytes [] = []
hex_bytes (b ∷ bytes) = hex_byte b ++ b' ' ∷ hex_bytes bytes

-- The line "Data (hex)" for at most `limit` bytes
unfoldable pub hex_line : ℕ → Bytes → Bytes
hex_line limit payload =
    codes "Data (hex): "
    ++ (hex_bytes (take limit payload)
        ++ ((if ltb limit (length payload) then codes "..." else []) ++ 10 ∷ []))

-- `isprint` in the C locale
unfoldable pub is_print : ℕ → Bool
is_print c = leb 32 c && leb c 126

-- The text that `save_to_file` keeps: the printable bytes
unfoldable pub printable : Bytes → Bytes
printable [] = []
printable (b ∷ bytes) = let rest = printable bytes in if is_print b then b ∷ rest else rest

-- The text that `print_packet` shows: up to a zero byte, one point for the first of other bytes
unfoldable pub shown : Bool → Bytes → Bytes
shown last [] = []
shown last (b ∷ bytes) =
    let after = shown true bytes in
    let skipped = shown false bytes in
    if is_print b
    then b ∷ after
    else if b == 0
    then []
    else if last
    then b'.' ∷ skipped
    else skipped

-- `%06ld`, for less than a million
unfoldable pub six_digits : ℕ → Bytes
six_digits n =
    (b'0' + n / 100000 % 10)
    ∷ (b'0' + n / 10000 % 10)
    ∷ (b'0' + n / 1000 % 10)
    ∷ (b'0' + n / 100 % 10)
    ∷ (b'0' + n / 10 % 10)
    ∷ (b'0' + n % 10)
    ∷ []

-- The lines about the data; there are none without a payload.
unfoldable pub saved_data : Option Bytes → Bytes
saved_data none = []
saved_data (some payload) =
    hex_line 64 payload ++ (codes "Data (text): " ++ (printable (take 64 payload) ++ 10 ∷ []))

unfoldable pub shown_data : Option Bytes → Bytes
shown_data none = []
shown_data (some payload) =
    hex_line 32 payload ++ (codes "Data (text): " ++ (shown false (take 64 payload) ++ 10 ∷ []))

unfoldable pub line_of : Bytes → Bytes → Bytes → Bytes
line_of title left right = title ++ (left ++ (codes " -> " ++ (right ++ 10 ∷ [])))

-- What `save_to_file` writes for packet `i`
unfoldable pub saved_packet : ℕ → Captured → Bytes
saved_packet i p =
    codes "   Packet #"
    ++ decimal (suc i)
    ++ codes ":"
    ++ 10 ∷ codes "Time: "
    ++ decimal p.timestamp.0
    ++ codes "."
    ++ six_digits p.timestamp.1
    ++ 10 ∷ line_of (codes "MAC: ") (print_mac p.src_mac) (print_mac p.dst_mac)
    ++ line_of (codes "IP: ") p.src_ip p.dst_ip
    ++ line_of (codes "UDP: ") (decimal p.src_port) (decimal p.dst_port)
    ++ codes "Length: "
    ++ decimal p.udp_length
    ++ codes " bytes"
    ++ 10 ∷ codes "Payload: "
    ++ decimal p.payload_length
    ++ codes " bytes"
    ++ 10 ∷ saved_data p.payload
    ++ 10 ∷ []

unfoldable pub saved_packets : ℕ → List Captured → Bytes
saved_packets i [] = []
saved_packets i (p ∷ packets) = saved_packet i p ++ saved_packets (suc i) packets

-- `save_to_file`; `date` is what `ctime` gives.
unfoldable pub save_to_file : Bytes → List Captured → Bytes
save_to_file date packets =
    codes "   UDP Packet Capture Report"
    ++ 10 ∷ codes "Total packets: "
    ++ decimal (length packets)
    ++ 10 ∷ codes "Capture date: "
    ++ date
    ++ 10 ∷ saved_packets 0 packets

-- The name that `scanf` read, and the one in its place
unfoldable pub file_name : Option Bytes → Bytes
file_name none = codes "captured_packets.txt"
file_name (some name) = name

-- What `main` does with the packets for the user's choice, the default being 2: whether it shows them, and
-- under which name it saves them.
unfoldable pub results : Option ℤ → Option Bytes → Bool × Option Bytes
results none typed = (false, some (file_name typed))
results (some (negsuc n)) typed = (false, some (file_name none))
results (some (pos choice)) typed =
    if choice == 1
    then (true, none)
    else if choice == 2
    then (false, some (file_name typed))
    else if choice == 3
    then (true, some (file_name typed))
    else (false, some (file_name none))

-- Reading hexadecimal digits back, two for each byte, with one sign behind each byte but the last
unfoldable pub hex_value : ℕ → ℕ
hex_value c = if leb b'a' c then c - b'a' + 10 else c - b'0'

unfoldable pub read_hex : Bytes → Bytes
read_hex [] = []
read_hex (h ∷ []) = []
read_hex (h ∷ l ∷ []) = (hex_value h * 16 + hex_value l) ∷ []
read_hex (h ∷ l ∷ separator ∷ text) = (hex_value h * 16 + hex_value l) ∷ read_hex text

hex_value-hex_digit : (d : ℕ) → d < 16 → hex_value (hex_digit d) ≡ d
unfolding hex_value hex_digit
hex_value-hex_digit d h = ground arith

hex_value_byte :
    (b : ℕ)
    → b < 256
    → hex_value (hex_digit (b / 16 % 16)) * 16 + hex_value (hex_digit (b % 16)) ≡ b
hex_value_byte b h = omega (
  arith,
  hex_value-hex_digit (b / 16 % 16) (omega arith),
  hex_value-hex_digit (b % 16) (omega arith),
)

-- The hexadecimal digits that the report shows of bytes below 256 give these bytes back, and so do those of
-- an address as `print_mac` writes it.
pub read_hex-hex_bytes :
    (bytes : Bytes)
    → All (λ b. b < 256) bytes
    → (read_hex (hex_bytes bytes) ≡ bytes) × (read_hex (print_mac bytes) ≡ bytes)
unfolding read_hex hex_bytes print_mac hex_byte
read_hex-hex_bytes [] h = (refl, refl)
read_hex-hex_bytes (b ∷ []) h =
    (ap (λ v. v ∷ []) (hex_value_byte b h.0), ap (λ v. v ∷ []) (hex_value_byte b h.0))
read_hex-hex_bytes (b ∷ c ∷ bytes) h =
    let (p, q) = read_hex-hex_bytes (c ∷ bytes) h.1 in
    (rw (hex_value_byte b h.0) (ap (λ l. b ∷ l) p), rw (hex_value_byte b h.0) (ap (λ l. b ∷ l) q))

-- `print_mac` writes 17 bytes and the final zero for an address of 6 bytes: they fit into its buffer of 18.
pub length-print_mac : (a b c d e f : ℕ) → length (print_mac (a ∷ b ∷ c ∷ d ∷ e ∷ f ∷ [])) + 1 ≡ 18
unfolding print_mac hex_byte
length-print_mac a b c d e f = refl
