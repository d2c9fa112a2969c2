-- ===== src/Contacts/Book/Valid.antt =====
-- The invariant of the book, and the count of operations behind it.
use eltex_summer.Base.{
  ◌+◌, ◌<◌, ◌≤◌, ◌≡◌, refl, inl, inr, Bool, true, false, some, Bool-cases, leb, arith,
}
use eltex_summer.Contacts.{Tree, count_nodes, balance_tree}
use eltex_summer.Contacts.Sorted.{in_order, IsSearchTree}
use eltex_summer.Contacts.Balance.{height, balance_tree_lem, balance_tree_keeps}
use eltex_summer.Contacts.Book.{Book, after_operation}

pub record IsValid (b : Book) : Type 0 where
  pub ordered : IsSearchTree b.root
  pub counted : b.operation_count < 10

-- `balanceTree` returns a tree of the same contacts in the same order, with memory or without.
balance_tree-in_order :
    (ok : Bool) (t : Tree)
    → (t' : Tree) × (balance_tree ok t ≡ some t') × (in_order t' ≡ in_order t)
balance_tree-in_order true t = let (t', e, same, low) = balance_tree_lem t in (t', e, same)
balance_tree-in_order false t = (t, balance_tree_keeps t, refl)

-- After a change of the tree the count stays below ten and the contacts stay as they are.
pub after_operation-in_order :
    (ok : Bool) (b : Book)
    → (b' : Book) × (after_operation ok b ≡ some b')
      × (in_order b'.root ≡ in_order b.root)
      × (b'.operation_count < 10)
unfolding after_operation
after_operation-in_order ok b = elim (Bool-cases (leb 10 (b.operation_count + 1))) [
  | inl due ↦
      let (t', e, same) = balance_tree-in_order ok b.root in
      (record { root = t'; operation_count = 0 }, rw (due, e), same, omega arith)
  | inr early ↦ (record b { operation_count = b.operation_count + 1 }, rw early, refl, ground arith)
]

-- Every tenth operation leaves, where memory allows, the lowest tree of its contacts.
pub after_operation_low :
    (b : Book)
    → b.operation_count ≡ 9
    → (b' : Book) × (after_operation true b ≡ some b')
      × (b'.operation_count ≡ 0)
      × (in_order b'.root ≡ in_order b.root)
      × ((u : Tree) → count_nodes u ≡ count_nodes b.root → height b'.root ≤ height u)
unfolding after_operation
after_operation_low b h =
    let (t', e, same, low) = balance_tree_lem b.root in
    let due : leb 10 (b.operation_count + 1) ≡ true = rw h in
    (record { root = t'; operation_count = 0 }, rw (due, e), refl, same, low)

pub IsSearchTree-of_eq : (t u : Tree) → in_order t ≡ in_order u → IsSearchTree u → IsSearchTree t
IsSearchTree-of_eq t u e s = rw e s
