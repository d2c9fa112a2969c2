-- ===== src/Contacts/Sorted.antt =====
-- The in-order list of a tree, and sorted lists of contacts.
use mathlib.Core.List.{append-nil, append_assoc}
use eltex_summer.Base.{
  ◌≡◌, refl, sym, List, [], ◌∷◌, ◌++◌, All, All-append, All-append_left, All-append_right, length,
  length-append, arith,
}
use eltex_summer.Contacts.{Contact, Tree, leaf, node, store_in_order, count_nodes}
use eltex_summer.Contacts.Order.{Le}

-- The contacts of a tree from left to right.
unfoldable pub in_order : Tree → List Contact
in_order leaf = []
in_order (node l c r) = in_order l ++ c ∷ in_order r

abbrev pub Sorted : List Contact → Type 0
Sorted [] = Unit {0}
Sorted (c ∷ cs) = All (Le c) cs × Sorted cs

-- The search tree invariant: the in-order list does not decrease.
abbrev pub IsSearchTree : Tree → Type 0
IsSearchTree t = Sorted (in_order t)

pub store_in_order_lem :
    (t : Tree) (array : List Contact) → store_in_order t array ≡ array ++ in_order t
unfolding store_in_order in_order
store_in_order_lem leaf array = sym (append-nil array)
store_in_order_lem (node l c r) array =
    simp (store_in_order_lem r, store_in_order_lem l, append_assoc)

pub length-in_order : (t : Tree) → length (in_order t) ≡ count_nodes t
unfolding in_order count_nodes
length-in_order leaf = refl
length-in_order (node l c r) =
    omega (arith, length-append (in_order l) (c ∷ in_order r), length-in_order l, length-in_order r)

-- Each entry of the first list may stand in front of each entry of the second.
abbrev pub AllLe : List Contact → List Contact → Type 0
AllLe [] ys = Unit {0}
AllLe (x ∷ xs) ys = All (Le x) ys × AllLe xs ys

pub Sorted-append : (xs ys : List Contact) → Sorted xs → Sorted ys → AllLe xs ys → Sorted (xs ++ ys)
Sorted-append [] ys hx hy h = hy
Sorted-append (x ∷ xs) ys hx hy h =
    (All-append (Le x) xs ys hx.0 h.0, Sorted-append xs ys hx.1 hy h.1)

pub Sorted-append_left : (xs ys : List Contact) → Sorted (xs ++ ys) → Sorted xs
Sorted-append_left [] ys h = tt
Sorted-append_left (x ∷ xs) ys h = (All-append_left (Le x) xs ys h.0, Sorted-append_left xs ys h.1)

pub Sorted-append_right : (xs ys : List Contact) → Sorted (xs ++ ys) → Sorted ys
Sorted-append_right [] ys h = h
Sorted-append_right (x ∷ xs) ys h = Sorted-append_right xs ys h.1

pub AllLe-of_Sorted : (xs ys : List Contact) → Sorted (xs ++ ys) → AllLe xs ys
AllLe-of_Sorted [] ys h = tt
AllLe-of_Sorted (x ∷ xs) ys h = (All-append_right (Le x) xs ys h.0, AllLe-of_Sorted xs ys h.1)
