-- ===== src/UdpEcho/Numbers.antt =====
-- The numbers that the server puts behind the messages of each client.
use eltex_summer.Base.{
  ℕ, zero, suc, ◌+◌, ◌<◌, ◌≡◌, refl, ◌∙◌, inl, inr, ◌⊎◌, Bool, true, false, not, ◌&&◌, none, some,
  List, [], ◌∷◌, set, get_elem?, length, length-set, get_elem?-set_self, Bool-cases, Option-cases,
  ◌==◌, if◌then◌else◌, starts_with, codes, leb, Bytes, arith,
}
use eltex_summer.UdpEcho.{
  Peer, same_peer, Client, Packet, find_active, find_free, find_client, remove_client, answer,
  receive, response_text, received_text, EchoReply, loopback,
}
use eltex_summer.UdpEcho.Clients.{
  counter_of, OneEach, same_peer_refl, find_active-counter_of, find_active-none, counter_of_same,
  counter_of-set, counter_of-new, counter_of-freed, set-OneEach, new-OneEach, freed-OneEach,
}

-- The number that the next message of a peer gets.
unfoldable pub next_number : List Client → Peer → ℕ
next_number clients p = elim (counter_of clients p) [ none ↦ 1 | some n ↦ n ]

-- A datagram for the server from another port.
abbrev pub ForServer : Packet → Type 0
ForServer pkt = ((pkt.from.port == 51000) ≡ false) × ((pkt.dest == 51000) ≡ true)

abbrev pub is_close : Packet → Bool
is_close pkt = leb 5 (length pkt.payload) && starts_with pkt.payload (codes "CLOSE")

pub record IsValid (clients : List Client) : Type 0 where
  pub one_each : OneEach clients
  pub full_size : length clients ≡ 100

find_free_lt : (clients : List Client) (i : ℕ) → find_free clients ≡ some i → i < length clients
unfolding find_free
find_free_lt [] i h = cc
find_free_lt (c ∷ clients) i h = elim (Bool-cases (not c.active)) [
  | inl e ↦ ground arith
  | inr e ↦ elim (Option-cases (find_free clients)) [
    | inl n ↦ ground arith
    | inr (j, n) ↦
        let k : j < length clients = find_free_lt clients j n in
        let z : i ≡ suc j = ground arith in omega arith
  ]
]

find_active-new :
    (clients : List Client) (p : Peer) (i : ℕ)
    → find_active clients p ≡ none
    → find_free clients ≡ some i
    → find_active (set clients i (record { peer = p; counter = 1; active = true })) p ≡ some i
unfolding find_active find_free
find_active-new [] p i h f = cc
find_active-new (d ∷ clients) p zero h f = rw (same_peer_refl p)
find_active-new (d ∷ clients) p (suc i) h f = ground (arith, find_active-new clients p i)

-- What a message of `p` that gets a reply does to the table.
pub record Numbered (clients clients' : List Client) (p : Peer) : Type 0 where
  pub valid : IsValid clients'
  pub counters :
      (q : Peer)
      → counter_of clients' q
        ≡ (if same_peer p q then some (next_number clients p + 1) else counter_of clients q)

-- Both ways in which `find_client` finds an entry.
record Found (clients : List Client) (p : Peer) : Type 0 where
  place : ℕ
  table : List Client
  client : Client
  found : find_client clients p ≡ some (place, table)
  at : get_elem? table place ≡ some client
  number : client.counter ≡ next_number clients p
  numbered : Numbered clients (set table place (record client { counter = client.counter + 1 })) p

Found-old :
    (clients : List Client) (p : Peer) (i : ℕ)
    → IsValid clients
    → find_active clients p ≡ some i
    → Found clients p
unfolding find_client next_number
Found-old clients p i v h =
    let (c, at, co, ac, sp) = find_active-counter_of clients p i h in
    record {
      place = i;
      table = clients;
      client = c;
      found = rw (h, find_client);
      at = at;
      number = rw (co, next_number);
      numbered = record {
        valid = record {
          one_each = set-OneEach clients p i c (c.counter + 1) v.one_each h at;
          full_size = length-set clients i _ ∙ v.full_size;
        };
        counters = λ q. rw (co, next_number) (counter_of-set clients p q i c (c.counter + 1) h at);
      };
    }

Found-new :
    (clients : List Client) (p : Peer) (i : ℕ)
    → IsValid clients
    → find_active clients p ≡ none
    → find_free clients ≡ some i
    → Found clients p
unfolding find_client next_number
Found-new clients p i v h f =
    let new : Client = record { peer = p; counter = 1; active = true } in
    let table : List Client = set clients i new in
    let at = get_elem?-set_self clients i new (find_free_lt clients i f) in
    let active = find_active-new clients p i h f in
    let co = find_active-none clients p h in
    record {
      place = i;
      table = table;
      client = new;
      found = rw (h, find_client, f);
      at = at;
      number = rw (co, next_number);
      numbered = record {
        valid = record {
          one_each =
              set-OneEach table p i new (1 + 1) (new-OneEach clients p i v.one_each h f) active at;
          full_size = length-set table i _ ∙ length-set clients i new ∙ v.full_size;
        };
        counters = λ q.
            rw (co, next_number)
              (ground (
                arith,
                counter_of-set table p q i new (1 + 1) active at,
                counter_of-new clients p q i h f,
              ));
      };
    }

-- The reply to a message
unfoldable pub reply_to : Bytes → List Client → Packet → EchoReply
reply_to beyond clients pkt = record {
  source = record { addr = loopback; port = 51000 };
  destination = pkt.from;
  text = response_text (received_text beyond pkt.payload) (next_number clients pkt.from);
}

-- With a valid table, for a message to the server that is no CLOSE: either the peer is new and the
-- table is full, and nothing happens; or the reply is the message with the peer's number, the
-- peer's next number goes up by one, all other peers keep theirs, and the table stays valid.
pub receive-message :
    (beyond : Bytes) (clients : List Client) (pkt : Packet)
    → IsValid clients
    → ForServer pkt
    → is_close pkt ≡ false
    → ((counter_of clients pkt.from ≡ none)
        × (find_free clients ≡ none)
        × (receive beyond clients pkt ≡ (clients, none)))
      ⊎ ((clients' : List Client) × (receive beyond clients pkt
            ≡ (clients', some (reply_to beyond clients pkt)))
          × Numbered clients clients' pkt.from)
unfolding receive answer find_client reply_to
receive-message beyond clients pkt v (a, b) close =
    elim (Option-cases (find_active clients pkt.from)) [
      | inr (i, h) ↦ inr (by_found (Found-old clients pkt.from i v h))
      | inl h ↦ elim (Option-cases (find_free clients)) [
        | inr (i, f) ↦ inr (by_found (Found-new clients pkt.from i v h f))
        | inl f ↦ inl (find_active-none clients pkt.from h, f, rw (a, b, close, find_client, h, f))
      ]
    ]
  where
    by_found :
        Found clients pkt.from
        → (clients' : List Client) × (receive beyond clients pkt
            ≡ (clients', some (reply_to beyond clients pkt)))
          × Numbered clients clients' pkt.from
    by_found r = (
      set r.table r.place (record r.client { counter = r.client.counter + 1 }),
      rw (a, b, close, r.found, r.at, answer, r.number) refl,
      r.numbered,
    )

-- With a valid table CLOSE gets no reply and forgets the peer's number; all other peers keep
-- theirs, and the table stays valid.
pub receive-close :
    (beyond : Bytes) (clients : List Client) (pkt : Packet)
    → IsValid clients
    → ForServer pkt
    → is_close pkt ≡ true
    → (clients' : List Client) × (receive beyond clients pkt ≡ (clients', none))
      × IsValid clients'
      × ((q : Peer)
          → counter_of clients' q ≡ (if same_peer pkt.from q then none else counter_of clients q))
unfolding receive remove_client
receive-close beyond clients pkt v (a, b) close =
    elim (Option-cases (find_active clients pkt.from)) [
      | inl h ↦ (
        clients,
        rw (a, b, close, h, remove_client),
        v,
        λ q.
            ground (arith, find_active-none clients pkt.from h, counter_of_same clients pkt.from q),
      )
      | inr (i, h) ↦
          let (c, at, co, ac, sp) = find_active-counter_of clients pkt.from i h in
          (
            set clients i (record c { active = false; counter = 0 }),
            rw (a, b, close, h, remove_client, at),
            record {
              one_each = freed-OneEach clients pkt.from i c v.one_each h at;
              full_size = length-set clients i _ ∙ v.full_size;
            },
            λ q. counter_of-freed clients pkt.from q i c v.one_each h at,
          )
    ]
