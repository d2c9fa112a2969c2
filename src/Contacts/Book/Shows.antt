-- ===== src/Contacts/Book/Shows.antt =====
-- The lists that the program shows.
use mathlib.Core.List.{append_assoc, reverse-append, reverse-cons, map-append}
use eltex_summer.Base.{
  ℕ, zero, suc, ◌+◌, ◌≡◌, refl, ap, ◌∙◌, some, List, [], ◌∷◌, ◌++◌, map, reverse, length,
  length-append, get_elem?, arith,
}
use eltex_summer.Contacts.{
  Contact, Tree, leaf, node, print_tree, print_tree_with_branches, store_in_order,
}
use eltex_summer.Contacts.Sorted.{in_order, store_in_order_lem}
use eltex_summer.Contacts.Book.{Book, show_contacts}

-- Entries numbered from `n`.
pub numbered : ℕ → List Contact → List (ℕ × Contact)
numbered n [] = []
numbered n (c ∷ cs) = (n, c) ∷ numbered (n + 1) cs

numbered-append :
    (n : ℕ) (xs ys : List Contact)
    → numbered n (xs ++ ys) ≡ numbered n xs ++ numbered (n + length xs) ys
unfolding numbered
numbered-append n [] ys = let e : n + 0 ≡ n = omega arith in rw e
numbered-append n (x ∷ xs) ys =
    let e : n + suc (length xs) ≡ n + 1 + length xs = omega arith in
    rw e (ap (λ l. (n, x) ∷ l) (numbered-append (n + 1) xs ys))

print_tree-numbered :
    (t : Tree) (n : ℕ) → print_tree t n ≡ (numbered n (in_order t), n + length (in_order t))
unfolding print_tree in_order numbered
print_tree-numbered leaf n = ground arith
print_tree-numbered (node l c r) n =
    rw
      (
        print_tree-numbered l n,
        print_tree-numbered r (n + length (in_order l) + 1),
        numbered-append n (in_order l) (c ∷ in_order r),
        length-append (in_order l) (c ∷ in_order r),
      )
      (ap
        (λ k. (
          numbered n (in_order l)
              ++ (n + length (in_order l), c) ∷ numbered (n + length (in_order l) + 1) (in_order r),
          k,
        ))
        (omega arith))

get_elem?-numbered :
    (n i : ℕ) (xs : List Contact) (c : Contact)
    → get_elem? xs i ≡ some c
    → get_elem? (numbered n xs) i ≡ some (n + i, c)
unfolding numbered
get_elem?-numbered n i [] c h = cc
get_elem?-numbered n zero (x ∷ xs) c h = ground arith
get_elem?-numbered n (suc i) (x ∷ xs) c h =
    let e : n + suc i ≡ n + 1 + i = omega arith in rw e (get_elem?-numbered (n + 1) i xs c h)

-- The number under which a contact is shown is one more than its place in the array from which
-- `editContact` and `deleteContact` choose.
pub show_contacts-store_in_order :
    (b : Book) (i : ℕ) (c : Contact)
    → get_elem? (store_in_order b.root []) i ≡ some c
    → get_elem? (show_contacts b) i ≡ some (1 + i, c)
unfolding show_contacts
show_contacts-store_in_order b i c h =
    ap (λ p. get_elem? p.0 i) (print_tree-numbered b.root 1)
    ∙ get_elem?-numbered 1 i (in_order b.root) c (rw (store_in_order_lem b.root []) at h)

-- The tree picture lists every contact once, from the last to the first.
pub print_tree_with_branches-reverse :
    (t : Tree) (level : ℕ)
    → map (λ p. p.1) (print_tree_with_branches t level) ≡ reverse (in_order t)
unfolding print_tree_with_branches in_order
print_tree_with_branches-reverse leaf level = refl
print_tree_with_branches-reverse (node l c r) level = rw (
  map-append,
  print_tree_with_branches-reverse r (level + 1),
  print_tree_with_branches-reverse l (level + 1),
  reverse-append (in_order l) (c ∷ in_order r),
  reverse-cons c (in_order r),
  append_assoc (reverse (in_order r)) (c ∷ []) (reverse (in_order l)),
)
