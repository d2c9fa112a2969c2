-- ===== src/UdpEcho/Exchange.antt =====
-- The client of the echo server, module3/cross1/client.c: what it sends for a line, and a line on its way to
-- the server and back.
use eltex_summer.Base.{ℕ, ◌||◌, Option, none, some, [], ◌∷◌, Bytes, codes, ltb, ◌==◌, if◌then◌else◌}
use eltex_summer.Base.Int.{ℤ, pos, negsuc}
use eltex_summer.Base.Scan.{atoi}
use eltex_summer.UdpEcho.{Headers, Packet, server_port, EchoReply, loopback, build_udp_packet}

-- The port of the argument, which is from 1024 to 65535
unfoldable pub port_in_range : ℤ → Option ℕ
port_in_range (negsuc n) = none
port_in_range (pos n) = if ltb n 1024 || ltb 65535 n then none else some n

unfoldable pub client_port : Bytes → Option ℕ
client_port text = port_in_range (atoi text)

-- The packet that the client builds: its own address is 0, and the byte behind the text is 0.
unfoldable pub client_packet : ℕ → ℕ → Bytes → Headers × Bytes
client_packet port server_addr text = (
  build_udp_packet (record { addr = 0; port = port })
      (record { addr = server_addr; port = server_port }) text 0,
  text,
)

-- The packet for a line, without its newline; none for an empty one
unfoldable pub send_line : ℕ → ℕ → Bytes → Option (Headers × Bytes)
send_line port server_addr [] = none
send_line port server_addr (c ∷ line) = some (client_packet port server_addr (c ∷ line))

-- `signal_handler`
unfoldable pub close_packet : ℕ → ℕ → Headers × Bytes
close_packet port server_addr = client_packet port server_addr (codes "CLOSE")

-- The packet as the server gets it, with the address `client_addr` that the network puts in
unfoldable pub at_server : ℕ → Headers × Bytes → Packet
at_server client_addr (h, text) = record {
  from = record { addr = client_addr; port = h.source };
  dest = h.dest;
  payload = text;
}

-- A reply as the client gets it
unfoldable pub at_client : EchoReply → Packet
at_client r = record { from = r.source; dest = r.destination.port; payload = r.text }

-- What the client shows of a reply from `loopback`, if that is its server
unfoldable pub shown_from : ℕ → Bytes → Option Bytes
shown_from server_addr text = if loopback == server_addr then some text else none
