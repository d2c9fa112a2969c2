-- ===== src/Firewall/Writes.antt =====
-- The address list under `add`, `del` and `clear`, and what the hook makes of it.
use eltex_summer.Base.{
  ℕ, ◌<◌, ◌≤◌, ◌≡◌, refl, inl, inr, Bool, true, false, not, ◌||◌, ◌&&◌, some, List, [], ◌∷◌, ◌++◌,
  Bytes, c_str, str_eq, str_eq_iff, starts_with, codes, drop, length, length-append, leb, ◌==◌,
  if◌then◌else◌, Bool-cases, subst, All, All-append, arith,
}
use eltex_summer.Firewall.{
  Reply, written, einval, efault, enospc, fault, Header, drop_packet, accept, is_blocked, dotted,
  erase, add_ip, delete_ip, firewall_write, firewall_hook, strip_newline,
}

abbrev pub Distinct : List Bytes → Type 0
Distinct [] = Unit {0}
Distinct (b ∷ blocked) = (is_blocked blocked b ≡ false) × Distinct blocked

-- No address twice, at most 32, and each fits its slot with the zero byte.
pub record IsValid (blocked : List Bytes) : Type 0 where
  pub distinct : Distinct blocked
  pub bounded : length blocked ≤ 32
  pub fit : All (λ b. length b < 16) blocked

-- What holds of the list after a reply; a reply with an error keeps the list.
abbrev pub AfterReply {ℓ} : (List Bytes → Type ℓ) → Reply → Type ℓ
AfterReply P (written n blocked) = P blocked
AfterReply P einval = Unit
AfterReply P efault = Unit
AfterReply P enospc = Unit
AfterReply P fault = Unit

pub is_blocked-append :
    (xs ys : List Bytes) (ip : Bytes)
    → is_blocked (xs ++ ys) ip ≡ is_blocked xs ip || is_blocked ys ip
unfolding is_blocked
is_blocked-append [] ys ip = refl
is_blocked-append (x ∷ xs) ys ip = ground (arith, is_blocked-append xs ys ip)

str_eq_comm_false : (a b : Bytes) → str_eq a b ≡ false → str_eq b a ≡ false
str_eq_comm_false a b h = ground (arith, str_eq_iff a b, str_eq_iff b a)

Distinct-snoc :
    (xs : List Bytes) (ip : Bytes)
    → Distinct xs
    → is_blocked xs ip ≡ false
    → Distinct (xs ++ ip ∷ [])
unfolding is_blocked
Distinct-snoc [] ip d h = (refl, tt)
Distinct-snoc (x ∷ xs) ip d h = (
  ground (arith, is_blocked-append xs (ip ∷ []) x, str_eq_comm_false x ip),
  Distinct-snoc xs ip d.1 (ground arith),
)

is_blocked-erase_other :
    (xs : List Bytes) (ip b : Bytes) → is_blocked xs b ≡ false → is_blocked (erase xs ip) b ≡ false
unfolding is_blocked erase
is_blocked-erase_other [] ip b h = refl
is_blocked-erase_other (x ∷ xs) ip b h = ground (arith, is_blocked-erase_other xs ip b)

Distinct-erase : (xs : List Bytes) (ip : Bytes) → Distinct xs → Distinct (erase xs ip)
unfolding erase
Distinct-erase [] ip d = tt
Distinct-erase (x ∷ xs) ip d =
    ground (arith, Distinct-erase xs ip d.1, is_blocked-erase_other xs ip x)

length-erase : (xs : List Bytes) (ip : Bytes) → length (erase xs ip) ≤ length xs
unfolding erase
length-erase [] ip = omega arith
length-erase (x ∷ xs) ip = ground (arith, length-erase xs ip)

All-erase {ℓ} : (P : Bytes → Type ℓ) (xs : List Bytes) (ip : Bytes) → All P xs → All P (erase xs ip)
unfolding erase
All-erase P [] ip h = tt
All-erase P (x ∷ xs) ip h = ground (arith, All-erase P xs ip h.1)

add_ip-IsValid :
    (blocked : List Bytes) (ip : Bytes) (len : ℕ)
    → IsValid blocked
    → AfterReply IsValid (add_ip blocked ip len)
unfolding add_ip
add_ip-IsValid blocked ip len v = elim (Bool-cases (leb 16 (length ip))) [
  | inl long ↦ rw long tt
  | inr short ↦ elim (Bool-cases (leb 32 (length blocked))) [
    | inl full ↦ rw (short, full) tt
    | inr room ↦ elim (Bool-cases (is_blocked blocked ip)) [
      | inl old ↦ rw (short, room, old) v
      | inr new ↦
          rw (short, room, new)
            (record {
              distinct = Distinct-snoc blocked ip v.distinct new;
              bounded = ground (arith, length-append blocked (ip ∷ []));
              fit = All-append (λ b. length b < 16) blocked (ip ∷ []) v.fit (ground arith, tt);
            })
    ]
  ]
]

delete_ip-IsValid :
    (blocked : List Bytes) (ip : Bytes) (len : ℕ)
    → IsValid blocked
    → AfterReply IsValid (delete_ip blocked ip len)
unfolding delete_ip
delete_ip-IsValid blocked ip len v = elim (Bool-cases (leb 16 (length ip))) [
  | inl long ↦ rw long tt
  | inr short ↦ rw short (record {
    distinct = Distinct-erase blocked ip v.distinct;
    bounded = omega (arith, v.bounded, length-erase blocked ip);
    fit = All-erase (λ b. length b < 16) blocked ip v.fit;
  })
]

if_AfterReply :
    (b : Bool) (r q : Reply)
    → AfterReply IsValid r
    → AfterReply IsValid q
    → AfterReply IsValid (if b then r else q)
if_AfterReply true r q h k = h
if_AfterReply false r q h k = k

-- Whatever is written to /proc, a write that the handler takes without running over its arrays
-- leaves a list that was valid with at most 32 addresses, each once and each with room for its
-- end.
pub firewall_write-IsValid :
    (blocked : List Bytes) (copied : Bool) (buf : Bytes)
    → IsValid blocked
    → AfterReply IsValid (firewall_write blocked copied buf)
unfolding firewall_write
firewall_write-IsValid blocked copied buf v =
    let command = c_str (strip_newline buf) in
    let clear : IsValid [] = record { distinct = tt; bounded = omega arith; fit = tt } in
    if_AfterReply (leb 64 (length buf)) einval _ tt (
      if_AfterReply (not copied) efault _ tt (
        if_AfterReply (length buf == 0) fault _ tt (
          if_AfterReply (starts_with command (codes "add ")) _ _
            (add_ip-IsValid blocked (drop 4 command) (length buf) v)
            (if_AfterReply (starts_with command (codes "del ")) _ _
              (delete_ip-IsValid blocked (drop 4 command) (length buf) v)
              (if_AfterReply (str_eq command (codes "clear")) (written (length buf) []) einval clear
                tt)))))

is_blocked-erase :
    (xs : List Bytes) (ip b : Bytes)
    → Distinct xs
    → is_blocked (erase xs ip) b ≡ (if str_eq ip b then false else is_blocked xs b)
unfolding is_blocked erase
is_blocked-erase [] ip b d = ground arith
is_blocked-erase (x ∷ xs) ip b d =
    ground (arith, is_blocked-erase xs ip b d.1, str_eq_iff x ip, str_eq_iff ip b, str_eq_iff x b)

is_blocked_subst :
    (blocked : List Bytes) (ip b : Bytes)
    → is_blocked blocked ip ≡ true
    → str_eq ip b ≡ true
    → is_blocked blocked b ≡ true
is_blocked_subst blocked ip b h e =
    subst (λ x. is_blocked blocked x ≡ true) ((str_eq_iff ip b).0 e) h

is_blocked-add_ip :
    (blocked blocked' : List Bytes) (ip b : Bytes) (len n : ℕ)
    → add_ip blocked ip len ≡ written n blocked'
    → is_blocked blocked' b ≡ is_blocked blocked b || str_eq ip b
unfolding add_ip is_blocked
is_blocked-add_ip blocked blocked' ip b len n e =
    ground (arith, is_blocked_subst blocked ip b, is_blocked-append blocked (ip ∷ []) b)

-- After a successful `add` the hook drops packets to that address, and decides on every other
-- packet as before.
pub firewall_hook-add_ip :
    (blocked blocked' : List Bytes) (ip : Bytes) (len n : ℕ) (h : Header)
    → add_ip blocked ip len ≡ written n blocked'
    → firewall_hook blocked' (some h) ≡ (
        if (h.version == 4) && str_eq ip (dotted h.daddr)
        then drop_packet
        else firewall_hook blocked (some h))
unfolding firewall_hook
firewall_hook-add_ip blocked blocked' ip len n h e =
    ground (arith, is_blocked-add_ip blocked blocked' ip (dotted h.daddr) len n e)

-- After a successful `del` on a valid list no packet to that address is dropped, and the hook
-- decides on every other packet as before.
pub firewall_hook-delete_ip :
    (blocked blocked' : List Bytes) (ip : Bytes) (len n : ℕ) (h : Header)
    → IsValid blocked
    → delete_ip blocked ip len ≡ written n blocked'
    → firewall_hook blocked' (some h)
      ≡ (if str_eq ip (dotted h.daddr) then accept else firewall_hook blocked (some h))
unfolding delete_ip firewall_hook
firewall_hook-delete_ip blocked blocked' ip len n h v e =
    ground (arith, is_blocked-erase blocked ip (dotted h.daddr) v.distinct)
