-- ===== src/Contacts/Insert.antt =====
-- `insert` is insertion into the sorted list of contacts.
use Prim.Native.Nat.Ordering.{lt, eq, gt}
use mathlib.Core.List.{Perm}
use mathlib.Core.List.Perm
use eltex_summer.Base.{
  ◌≡◌, refl, sym, ap, ◌∙◌, ◌+◌, ◌≢◌, ◌⊎◌, inl, inr, List, [], ◌∷◌, ◌++◌, All, arith,
}
use eltex_summer.Contacts.{Contact, Tree, leaf, node, insert, count_nodes, compare_contacts}
use eltex_summer.Contacts.Order.{Le, Le_trans, Le_of_lt, Le_of_not_lt, compare_flip}
use eltex_summer.Contacts.Sorted.{
  in_order, Sorted, IsSearchTree, AllLe, Sorted-append_left, Sorted-append_right, AllLe-of_Sorted,
}

-- In front of the first contact that is greater: behind those with an equal key.
pub insert_sorted : Contact → List Contact → List Contact
insert_sorted c [] = c ∷ []
insert_sorted c (d ∷ ds) = elim (compare_contacts c d) [
  | lt ↦ c ∷ d ∷ ds
  | eq ↦ d ∷ insert_sorted c ds
  | gt ↦ d ∷ insert_sorted c ds
]

insert_sorted-left :
    (c d : Contact) (xs ys : List Contact)
    → compare_contacts c d ≡ lt
    → insert_sorted c (xs ++ d ∷ ys) ≡ insert_sorted c xs ++ d ∷ ys
unfolding insert_sorted
insert_sorted-left c d [] ys h = rw (h, insert_sorted)
insert_sorted-left c d (x ∷ xs) ys h = ground (arith, insert_sorted-left c d xs ys h)

insert_sorted-right :
    (c : Contact) (xs ys : List Contact)
    → All (λ x. compare_contacts c x ≢ lt) xs
    → insert_sorted c (xs ++ ys) ≡ xs ++ insert_sorted c ys
unfolding insert_sorted
insert_sorted-right c [] ys h = refl
insert_sorted-right c (x ∷ xs) ys h = ground (arith, insert_sorted-right c xs ys h.1)

AllLe-not_lt :
    (c : Contact) (d : Contact) (xs ys : List Contact)
    → AllLe xs (d ∷ ys)
    → Le d c
    → All (λ x. compare_contacts c x ≢ lt) xs
AllLe-not_lt c d [] ys h k = tt
AllLe-not_lt c d (x ∷ xs) ys h k =
    (ground (arith, Le_trans x d c h.0.0 k, compare_flip x c), AllLe-not_lt c d xs ys h.1 k)

insert-left :
    (l r : Tree) (c d : Contact)
    → compare_contacts c d ≡ lt
    → insert (node l d r) c ≡ node (insert l c) d r
unfolding insert
insert-left l r c d h = rw (h, insert)

insert-right :
    (l r : Tree) (c d : Contact)
    → compare_contacts c d ≢ lt
    → insert (node l d r) c ≡ node l d (insert r c)
unfolding insert
insert-right l r c d h = ground arith

insert_sorted-cons :
    (c d : Contact) (ds : List Contact)
    → compare_contacts c d ≢ lt
    → insert_sorted c (d ∷ ds) ≡ d ∷ insert_sorted c ds
unfolding insert_sorted
insert_sorted-cons c d ds h = ground arith

lt_cases : (a b : Contact) → (compare_contacts a b ≡ lt) ⊎ (compare_contacts a b ≢ lt)
lt_cases a b = ground arith

-- On a search tree `insert` puts the contact at its place in the in-order list: behind every
-- contact that is not greater, and in front of the others, whose order stays.
pub in_order-insert :
    (t : Tree) (c : Contact) → IsSearchTree t → in_order (insert t c) ≡ insert_sorted c (in_order t)
unfolding insert in_order insert_sorted
in_order-insert leaf c s = refl
in_order-insert (node l d r) c s = elim (lt_cases c d) [
  | inl h ↦
      ap in_order (insert-left l r c d h)
      ∙ ap (λ x. x ++ d ∷ in_order r)
          (in_order-insert l c (Sorted-append_left (in_order l) (d ∷ in_order r) s))
      ∙ sym (insert_sorted-left c d (in_order l) (in_order r) h)
  | inr h ↦
      ap in_order (insert-right l r c d h)
      ∙ ap (λ x. in_order l ++ d ∷ x)
          (in_order-insert r c (Sorted-append_right (in_order l) (d ∷ in_order r) s).1)
      ∙ ap (λ x. in_order l ++ x) (sym (insert_sorted-cons c d (in_order r) h))
      ∙ sym (
          insert_sorted-right c (in_order l) (d ∷ in_order r) (
            AllLe-not_lt c d (in_order l) (in_order r)
              (AllLe-of_Sorted (in_order l) (d ∷ in_order r) s) (Le_of_not_lt c d h)))
]

insert_sorted-All {ℓ} :
    (P : Contact → Type ℓ) (c : Contact) (xs : List Contact)
    → P c
    → All P xs
    → All P (insert_sorted c xs)
unfolding insert_sorted
insert_sorted-All P c [] hc h = (hc, tt)
insert_sorted-All P c (x ∷ xs) hc h = ground (arith, insert_sorted-All P c xs hc h.1)

All-Le_trans : (c d : Contact) (xs : List Contact) → Le c d → All (Le d) xs → All (Le c) xs
All-Le_trans c d [] h k = tt
All-Le_trans c d (x ∷ xs) h k = (Le_trans c d x h k.0, All-Le_trans c d xs h k.1)

insert_sorted-Sorted : (c : Contact) (xs : List Contact) → Sorted xs → Sorted (insert_sorted c xs)
unfolding insert_sorted
insert_sorted-Sorted c [] s = (tt, tt)
insert_sorted-Sorted c (x ∷ xs) s = elim (lt_cases c x) [
  | inl h ↦ rw (h, insert_sorted) ((Le_of_lt c x h, All-Le_trans c x xs (Le_of_lt c x h) s.0), s)
  | inr h ↦
      rw (insert_sorted-cons c x xs h)
        (insert_sorted-All (Le x) c xs (Le_of_not_lt c x h) s.0, insert_sorted-Sorted c xs s.1)
]

insert_sorted-perm : (c : Contact) (xs : List Contact) → Perm (insert_sorted c xs) (c ∷ xs)
unfolding insert_sorted
insert_sorted-perm c [] = Perm.refl (c ∷ [])
insert_sorted-perm c (x ∷ xs) = elim (lt_cases c x) [
  | inl h ↦ rw (h, insert_sorted) (Perm.refl (c ∷ x ∷ xs))
  | inr h ↦
      rw (insert_sorted-cons c x xs h)
        (Perm.trans (Perm.cons x (insert_sorted-perm c xs)) (Perm.swap c x xs))
]

-- On a search tree `insert` keeps the search tree invariant and adds exactly the new contact.
pub insert-IsSearchTree :
    (t : Tree) (c : Contact)
    → IsSearchTree t
    → IsSearchTree (insert t c) × Perm (in_order (insert t c)) (c ∷ in_order t)
insert-IsSearchTree t c s =
    rw (in_order-insert t c s)
      (insert_sorted-Sorted c (in_order t) s, insert_sorted-perm c (in_order t))

-- Whatever the tree, `insert` adds one node.
pub count_nodes-insert : (t : Tree) (c : Contact) → count_nodes (insert t c) ≡ count_nodes t + 1
unfolding insert count_nodes
count_nodes-insert leaf c = refl
count_nodes-insert (node l d r) c = ground (arith, count_nodes-insert l c, count_nodes-insert r c)
