-- ===== src/UdpEcho/Clients.antt =====
-- The client table of the server, seen as the next message number of each peer.
use eltex_summer.Base.{
  ℕ, zero, suc, ◌≡◌, refl, inl, inr, true, false, ◌&&◌, Option, none, some, List, [], ◌∷◌, set,
  get_elem?, Bool-cases, Option-cases, if◌then◌else◌, arith,
}
use eltex_summer.UdpEcho.{Peer, same_peer, Client, find_active, find_free}

-- The counter of a peer's client, if it has one.
unfoldable pub counter_of : List Client → Peer → Option ℕ
counter_of [] p = none
counter_of (c ∷ clients) p =
    if c.active && same_peer c.peer p then some c.counter else counter_of clients p

-- No peer has two active entries.
abbrev pub OneEach : List Client → Type 0
OneEach [] = Unit {0}
OneEach (c ∷ clients) = ((c.active ≡ true) → counter_of clients c.peer ≡ none) × OneEach clients

pub same_peer_refl : (p : Peer) → same_peer p p ≡ true
unfolding same_peer
same_peer_refl p = ground arith

same_peer_trans : (a b c : Peer) → same_peer a b ≡ true → same_peer a c ≡ same_peer b c
unfolding same_peer
same_peer_trans a b c h = ground arith

same_peer_join : (a b c : Peer) → same_peer a c ≡ true → same_peer b c ≡ true → same_peer a b ≡ true
unfolding same_peer
same_peer_join a b c h k = ground arith

pub same_peer_comm : (a b : Peer) → same_peer a b ≡ same_peer b a
unfolding same_peer
same_peer_comm a b = ground arith

pub counter_of_same :
    (clients : List Client) (p q : Peer)
    → same_peer p q ≡ true
    → counter_of clients p ≡ counter_of clients q
unfolding counter_of same_peer
counter_of_same [] p q h = refl
counter_of_same (c ∷ clients) p q h = ground (arith, counter_of_same clients p q h)

pub find_active-counter_of :
    (clients : List Client) (p : Peer) (i : ℕ)
    → find_active clients p ≡ some i
    → (c : Client) × (get_elem? clients i ≡ some c)
      × (counter_of clients p ≡ some c.counter)
      × (c.active ≡ true)
      × (same_peer c.peer p ≡ true)
unfolding find_active counter_of
find_active-counter_of [] p i h = cc
find_active-counter_of (c ∷ clients) p i h = elim (Bool-cases (c.active && same_peer c.peer p)) [
  | inl e ↦ let z : i ≡ 0 = ground arith in (c, rw z, rw e, ground arith, ground arith)
  | inr e ↦ elim (Option-cases (find_active clients p)) [
    | inl n ↦ ground arith
    | inr (j, n) ↦
        let (d, at, co, ac, sp) = find_active-counter_of clients p j n in
        let z : i ≡ suc j = ground arith in (d, rw z at, rw e co, ac, sp)
  ]
]

pub find_active-none :
    (clients : List Client) (p : Peer) → find_active clients p ≡ none → counter_of clients p ≡ none
unfolding find_active counter_of
find_active-none [] p h = refl
find_active-none (c ∷ clients) p h = ground (arith, find_active-none clients p)

-- A write of the counter through the pointer that `find_client` returns.
pub counter_of-set :
    (clients : List Client) (p q : Peer) (i : ℕ) (c : Client) (n : ℕ)
    → find_active clients p ≡ some i
    → get_elem? clients i ≡ some c
    → counter_of (set clients i (record c { counter = n })) q
      ≡ (if same_peer p q then some n else counter_of clients q)
unfolding find_active counter_of
counter_of-set [] p q i c n h at = cc
counter_of-set (d ∷ clients) p q zero c n h at = ground (arith, same_peer_trans d.peer p q)
counter_of-set (d ∷ clients) p q (suc i) c n h at =
    ground (arith, counter_of-set clients p q i c n, same_peer_join d.peer p q)

-- A new client in the first free entry.
pub counter_of-new :
    (clients : List Client) (p q : Peer) (i : ℕ)
    → find_active clients p ≡ none
    → find_free clients ≡ some i
    → counter_of (set clients i (record { peer = p; counter = 1; active = true })) q
      ≡ (if same_peer p q then some 1 else counter_of clients q)
unfolding find_active find_free counter_of
counter_of-new [] p q i h f = cc
counter_of-new (d ∷ clients) p q zero h f = ground arith
counter_of-new (d ∷ clients) p q (suc i) h f =
    ground (arith, counter_of-new clients p q i, same_peer_join d.peer p q)

-- A client's entry given back.
pub counter_of-freed :
    (clients : List Client) (p q : Peer) (i : ℕ) (c : Client)
    → OneEach clients
    → find_active clients p ≡ some i
    → get_elem? clients i ≡ some c
    → counter_of (set clients i (record c { active = false; counter = 0 })) q
      ≡ (if same_peer p q then none else counter_of clients q)
unfolding find_active counter_of
counter_of-freed [] p q i c o h at = cc
counter_of-freed (d ∷ clients) p q zero c o h at =
    ground (arith, same_peer_trans d.peer p q, counter_of_same clients d.peer q, o.0)
counter_of-freed (d ∷ clients) p q (suc i) c o h at =
    ground (arith, counter_of-freed clients p q i c o.1, same_peer_join d.peer p q)

pub set-OneEach :
    (clients : List Client) (p : Peer) (i : ℕ) (c : Client) (n : ℕ)
    → OneEach clients
    → find_active clients p ≡ some i
    → get_elem? clients i ≡ some c
    → OneEach (set clients i (record c { counter = n }))
unfolding find_active
set-OneEach [] p i c n o h at = cc
set-OneEach (d ∷ clients) p zero c n o h at = (ground (arith, o.0), o.1)
set-OneEach (d ∷ clients) p (suc i) c n o h at = (
  λ a. ground (arith, o.0 a, counter_of-set clients p d.peer i c n, same_peer_comm p d.peer),
  set-OneEach clients p i c n o.1 (ground arith) at,
)

pub new-OneEach :
    (clients : List Client) (p : Peer) (i : ℕ)
    → OneEach clients
    → find_active clients p ≡ none
    → find_free clients ≡ some i
    → OneEach (set clients i (record { peer = p; counter = 1; active = true }))
unfolding find_active find_free
new-OneEach [] p i o h f = cc
new-OneEach (d ∷ clients) p zero o h f = (λ a. find_active-none clients p (ground arith), o.1)
new-OneEach (d ∷ clients) p (suc i) o h f = (
  λ a. ground (arith, o.0 a, counter_of-new clients p d.peer i, same_peer_comm p d.peer),
  new-OneEach clients p i o.1 (ground arith) (ground arith),
)

pub freed-OneEach :
    (clients : List Client) (p : Peer) (i : ℕ) (c : Client)
    → OneEach clients
    → find_active clients p ≡ some i
    → get_elem? clients i ≡ some c
    → OneEach (set clients i (record c { active = false; counter = 0 }))
unfolding find_active
freed-OneEach [] p i c o h at = cc
freed-OneEach (d ∷ clients) p zero c o h at = (λ a. cc, o.1)
freed-OneEach (d ∷ clients) p (suc i) c o h at = (
  λ a. ground (arith, o.0 a, counter_of-freed clients p d.peer i c o.1, same_peer_comm p d.peer),
  freed-OneEach clients p i c o.1 (ground arith) at,
)
