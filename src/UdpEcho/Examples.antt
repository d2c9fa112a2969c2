-- ===== src/UdpEcho/Examples.antt =====
-- The echo server and the checksum on small inputs.
use eltex_summer.Base.{ℕ, zero, suc, false, false, List, [], ◌∷◌, codes}
use eltex_summer.UdpEcho.{Headers, Peer, Client, Packet}

abbrev headers : Headers
headers = record {
  saddr_high = 32512;
  saddr_low = 1;
  daddr_high = 32512;
  daddr_low = 1;
  source = 40000;
  dest = 51000;
  len = 12;
  check = 0;
}

abbrev nobody : Client
nobody = record { peer = record { addr = 0; port = 0 }; counter = 0; active = false }

abbrev free_entries : ℕ → List Client
free_entries zero = []
free_entries (suc n) = nobody ∷ free_entries n

-- The table at the start, and a client.
abbrev no_clients : List Client
no_clients = free_entries 100

abbrev visitor : Peer
visitor = record { addr = 2130706433; port = 40000 }

abbrev hello : Packet
hello = record { from = visitor; dest = 51000; payload = codes "hello" }

abbrev goodbye : Packet
goodbye = record { from = visitor; dest = 51000; payload = codes "CLOSE" }
