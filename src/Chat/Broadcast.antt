-- ===== src/Chat/Broadcast.antt =====
-- What `broadcast_message` and `remove_client` do to the list of clients.
use mathlib.Core.List.{Sublistᴰ}
use mathlib.Core.List.Sublistᴰ
use eltex_summer.Base.{
  ℕ, zero, suc, ◌+◌, ◌-◌, ◌<◌, ◌≤◌, ◌≡◌, refl, inl, inr, ap, Option, none, some, List, [], ◌∷◌,
  ◌++◌, get_elem?, length, ◌==◌, ◌>>=◌, Bool-cases, Option-cases, arith,
}
use eltex_summer.Chat.{
  Message, Client, Env, Attempts, Room, Relay, leave_message, take_client, is_sender, remove_by,
  Returning, offer, broadcast_from, broadcast_fuel, depth, broadcast_message, remove_client,
}

take_client-Sublistᴰ :
    (clients : List Client) (fd : ℕ) (c : Client) (rest : List Client)
    → take_client clients fd ≡ some (c, rest)
    → Sublistᴰ rest clients × (length clients ≡ suc (length rest))
unfolding take_client
take_client-Sublistᴰ [] fd c rest h = cc
take_client-Sublistᴰ (d ∷ clients) fd c rest h = elim (Bool-cases (d.fd == fd)) [
  | inl e ↦
      let k : clients ≡ rest = ground arith in (rw (← k) (Sublistᴰ.cons (Sublistᴰ.refl _)), rw k)
  | inr e ↦ elim (Option-cases (take_client clients fd)) [
    | inl n ↦ ground arith
    | inr ((c', rest'), n) ↦
        let (s, l) = take_client-Sublistᴰ clients fd c' rest' n in
        let k : d ∷ rest' ≡ rest = ground arith in
        (rw (← k) (Sublistᴰ.cons-cons refl s), rw (← k) (ap suc l))
  ]
]

-- Some of the clients are left, in their order.
pub record Returns (r : Option Room) (clients : List Client) : Type 0 where
  pub room : Room
  pub returned : r ≡ some room
  pub kept : Sublistᴰ room.0 clients

depth_mono : (m n : ℕ) → m ≤ n → depth m ≤ depth n
depth_mono zero n h = omega arith
depth_mono (suc m) zero h = elim h [ ]
depth_mono (suc m) (suc n) h = omega (arith, depth_mono m n (omega arith))

length-sublist : {xs ys : List Client} → Sublistᴰ xs ys → length xs ≤ length ys
length-sublist Sublistᴰ.slnil = omega arith
length-sublist (Sublistᴰ.cons s) = omega (arith, length-sublist s)
length-sublist (Sublistᴰ.cons-cons e s) = omega (arith, length-sublist s)

get_elem?-none : (xs : List Client) (i : ℕ) → length xs ≤ i → get_elem? xs i ≡ none
get_elem?-none [] i h = refl
get_elem?-none (x ∷ xs) zero h = elim h [ ]
get_elem?-none (x ∷ xs) (suc i) h = get_elem?-none xs i (omega arith)

-- What `broadcast_from` needs of its fuel when `k` entries are still to come.
RelayReturns : Relay → ℕ → Type 0
RelayReturns again fuel =
    (msg : Message) (sender : Option ℕ) (i : ℕ) (room : Room) (k : ℕ)
    → depth (length room.0) + k + 1 ≤ fuel
    → length room.0 ≤ i + k
    → Returns (again msg sender i room) room.0

remove_by-length :
    (again : Relay) (fuel fd : ℕ) (room : Room)
    → RelayReturns again fuel
    → depth (length room.0) ≤ fuel
    → (c : Client) (rest : List Client) → take_client room.0 fd ≡ some (c, rest)
    → (r : Returns (remove_by again fd room) room.0) × (suc (length r.room.0) ≤ length room.0)
unfolding RelayReturns remove_by
remove_by-length again fuel fd (clients, sent) f h c rest n =
    let (s, l) = take_client-Sublistᴰ clients fd c rest n in
    let r =
      f (leave_message c.nickname) none 0 (rest, sent) (length rest) (omega (arith, ap depth l))
        (omega arith) in
    (
      record {
        room = r.room;
        returned = rw (n, remove_by) r.returned;
        kept = Sublistᴰ.trans r.kept s;
      },
      omega (arith, length-sublist r.kept, l),
    )

take_client_found :
    (clients : List Client) (i : ℕ) (c : Client)
    → get_elem? clients i ≡ some c
    → (d : Client) × (rest : List Client) × (take_client clients c.fd ≡ some (d, rest))
unfolding take_client
take_client_found [] i c h = cc
take_client_found (d ∷ clients) zero c h = let e : d ≡ c = cc in (d, clients, rw e (ground arith))
take_client_found (d ∷ clients) (suc i) c h =
    let (b, rest, e) = take_client_found clients i c h in
    elim (Bool-cases (d.fd == c.fd)) [
      | inl k ↦ (d, clients, rw k)
      | inr k ↦ (b, d ∷ rest, rw (k, e))
    ]

get_elem?-some-lt :
    (xs : List Client) (i : ℕ) (c : Client) → get_elem? xs i ≡ some c → i < length xs
get_elem?-some-lt [] i c h = cc
get_elem?-some-lt (x ∷ xs) zero c h = omega arith
get_elem?-some-lt (x ∷ xs) (suc i) c h = omega (arith, get_elem?-some-lt xs i c h)

-- After the removal of the client that refused, the loop goes on among those left.
retry-Returns :
    (again : Relay) (fuel : ℕ) (msg : Message) (sender : Option ℕ) (i : ℕ) (c : Client)
    (room : Room) (k : ℕ)
    → RelayReturns again fuel
    → get_elem? room.0 i ≡ some c
    → depth (length room.0) + k ≤ fuel
    → length room.0 ≤ i + k
    → Returns (remove_by again c.fd room >>= λ r. again msg sender i r) room.0
unfolding RelayReturns
retry-Returns again fuel msg sender i c room k f at h e =
    let (d, rest, found) = take_client_found room.0 i c at in
    let (r, less) = remove_by-length again fuel c.fd room f (omega arith) d rest found in
    let small = depth_mono (suc (length r.room.0)) (length room.0) less in
    let q = f msg sender i r.room k (omega arith) (omega arith) in
    record {
      room = q.room;
      returned = rw (r.returned) q.returned;
      kept = Sublistᴰ.trans q.kept r.kept;
    }

offer-Returns :
    (again : Relay) (fuel : ℕ) (env : Env) (msg : Message) (sender : Option ℕ) (i : ℕ) (c : Client)
    (room : Room) (k : ℕ)
    → Returning env
    → RelayReturns again fuel
    → get_elem? room.0 i ≡ some c
    → depth (length room.0) + k ≤ fuel
    → length room.0 ≤ i + k
    → Returns (offer again env msg sender i c room) room.0
unfolding RelayReturns offer
offer-Returns again fuel env msg sender i c (clients, sent) k back f at h e =
    let lt : i < length clients = get_elem?-some-lt clients i c at in
    let next =
      λ (s : Attempts). f msg sender (i + 1) (clients, s) (k - 1) (omega arith) (omega arith) in
    elim (Bool-cases (is_sender sender c.fd)) [
      | inl own ↦ rw (own, offer) (next sent)
      | inr other ↦ elim (Bool-cases (env.accepts sent c.fd)) [
        | inl taken ↦ rw (other, offer, back sent c.fd, taken) (next (sent ++ (c.fd, msg) ∷ []))
        | inr refused ↦
            rw (other, offer, back sent c.fd, refused)
              (retry-Returns again fuel msg sender i c (clients, sent ++ (c.fd, msg) ∷ []) k f at h
                e)
      ]
    ]

broadcast_from-Returns :
    (env : Env) (fuel : ℕ) → Returning env → RelayReturns (broadcast_from env fuel) fuel
unfolding RelayReturns broadcast_from
broadcast_from-Returns env zero back msg sender i room k h e = absurd (omega arith)
broadcast_from-Returns env (suc fuel) back msg sender i (clients, sent) k h e =
    elim (Option-cases (get_elem? clients i)) [
      | inl end ↦ record {
        room = (clients, sent);
        returned = rw (end, broadcast_from);
        kept = Sublistᴰ.refl _;
      }
      | inr (c, at) ↦
          rw (at, broadcast_from)
            (offer-Returns (broadcast_from env fuel) fuel env msg sender i c (clients, sent) k back
              (broadcast_from-Returns env fuel back) at (omega arith) e)
    ]

-- Whichever sockets refuse, if all calls of `send_all` come back, `broadcast_message` returns and leaves some
-- of the clients, in their order.
pub broadcast_message-Returns :
    (env : Env) (msg : Message) (sender : Option ℕ) (room : Room)
    → Returning env
    → Returns (broadcast_message env msg sender room) room.0
unfolding broadcast_message RelayReturns
broadcast_message-Returns env msg sender room back =
    broadcast_from-Returns env (broadcast_fuel (length room.0)) back msg sender 0 room
      (length room.0) (omega arith) (omega arith)

-- So does `remove_client`.
pub remove_client-Returns :
    (env : Env) (fd : ℕ) (room : Room) → Returning env → Returns (remove_client env fd room) room.0
unfolding remove_client remove_by RelayReturns
remove_client-Returns env fd (clients, sent) back = elim (Option-cases (take_client clients fd)) [
  | inl none_found ↦ record {
    room = (clients, sent);
    returned = rw (none_found, remove_by);
    kept = Sublistᴰ.refl _;
  }
  | inr ((c, rest), found) ↦
      (remove_by-length (broadcast_from env (broadcast_fuel (length clients)))
        (broadcast_fuel (length clients)) fd (clients, sent)
        (broadcast_from-Returns env (broadcast_fuel (length clients)) back) (omega arith) c rest
        found).0
]
