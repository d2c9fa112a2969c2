-- ===== src/Contacts/Order.antt =====
-- `strcmp` and the comparison of contacts are total preorders.
use Prim.Native.Nat.Ordering.{lt, eq, gt}
use eltex_summer.Base.{◌≡◌, refl, ◌≢◌, [], ◌∷◌, Ordering, Bytes, strcmp, arith}
use eltex_summer.Contacts.{Contact, compare_contacts}

abbrev pub flip : Ordering → Ordering
flip lt = gt
flip eq = eq
flip gt = lt

strcmp-flip : (a b : Bytes) → strcmp b a ≡ flip (strcmp a b)
strcmp-flip [] [] = refl
strcmp-flip [] (y ∷ ys) = refl
strcmp-flip (x ∷ xs) [] = refl
strcmp-flip (x ∷ xs) (y ∷ ys) = ground (arith, strcmp-flip xs ys)

eq_of_strcmp : (a b : Bytes) → strcmp a b ≡ eq → a ≡ b
eq_of_strcmp [] [] h = refl
eq_of_strcmp [] (y ∷ ys) h = cc
eq_of_strcmp (x ∷ xs) [] h = cc
eq_of_strcmp (x ∷ xs) (y ∷ ys) h = ground (arith, eq_of_strcmp xs ys)

strcmp_trans : (a b c : Bytes) → strcmp a b ≡ lt → strcmp b c ≡ lt → strcmp a c ≡ lt
strcmp_trans [] [] c h k = cc
strcmp_trans [] (y ∷ b) [] h k = cc
strcmp_trans [] (y ∷ b) (z ∷ c) h k = refl
strcmp_trans (x ∷ a) [] c h k = cc
strcmp_trans (x ∷ a) (y ∷ b) [] h k = cc
strcmp_trans (x ∷ a) (y ∷ b) (z ∷ c) h k = ground (arith, strcmp_trans a b c)

pub strcmp_self : (a : Bytes) → strcmp a a ≡ eq
strcmp_self [] = refl
strcmp_self (x ∷ a) = ground (arith, strcmp_self a)

-- `a` may stand in front of `b`.
abbrev pub Le : Contact → Contact → Type 0
Le a b = compare_contacts a b ≢ gt

pub compare_flip : (a b : Contact) → compare_contacts b a ≡ flip (compare_contacts a b)
unfolding compare_contacts
compare_flip a b = ground (arith, strcmp-flip a.lastname b.lastname, strcmp-flip a.name b.name)

pub compare_self : (a : Contact) → compare_contacts a a ≡ eq
unfolding compare_contacts
compare_self a = ground (arith, strcmp_self a.lastname, strcmp_self a.name)

pub Le_trans : (a b c : Contact) → Le a b → Le b c → Le a c
unfolding compare_contacts
Le_trans a b c h k = ground (
  arith,
  strcmp_trans a.lastname b.lastname c.lastname,
  eq_of_strcmp a.lastname b.lastname,
  eq_of_strcmp b.lastname c.lastname,
  strcmp_trans a.name b.name c.name,
  eq_of_strcmp a.name b.name,
  eq_of_strcmp b.name c.name,
)

pub Le_of_not_lt : (a b : Contact) → compare_contacts a b ≢ lt → Le b a
Le_of_not_lt a b h = ground (arith, compare_flip a b)

pub Le_of_lt : (a b : Contact) → compare_contacts a b ≡ lt → Le a b
Le_of_lt a b h = ground arith
