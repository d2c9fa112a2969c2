-- ===== src/Contacts.antt =====
-- module2/4_3/contacts.c and contacts.h: a phone book kept in a binary search tree.
-- A node is reached from one parent only, so the pointer structure is a tree value. A function that
-- returns the new root of a subtree returns the new value. `free` leaves no trace here.
pub mod Order
pub mod Sorted
pub mod Insert
pub mod Balance
pub mod Delete
pub mod Deletion
pub mod Input
pub mod Book
mod Examples
use Prim.Native.Nat.Ordering.{lt, eq, gt}
use eltex_summer.Base.{
  ℕ, zero, suc, ◌+◌, ◌-◌, ◌/◌, Bool, true, false, not, Option, none, some, List, [], ◌∷◌, ◌++◌,
  Ordering, Bytes, strcmp, ltb, leb, if◌then◌else◌, ◌>>=◌, get_elem?,
}

pub record Contact : Type 0 where
  pub lastname : Bytes
  pub name : Bytes
  pub patronymic : Bytes
  pub workplace : Bytes
  pub position : Bytes
  pub phone : Bytes
  pub email : Bytes
  pub social : Bytes
  pub messenger : Bytes

-- `Contact*`: `leaf` is NULL, a node has its `left`, its fields and its `right`.
pub data Tree : Type 0 where
  leaf : Tree
  node : Tree → Contact → Tree → Tree

-- `static int compare`: the sign of the result.
unfoldable pub compare_contacts : Contact → Contact → Ordering
compare_contacts a b = elim (strcmp a.lastname b.lastname) [
  | eq ↦ strcmp a.name b.name
  | lt ↦ lt
  | gt ↦ gt
]

-- `insert`, where the new node has no children.
unfoldable pub insert : Tree → Contact → Tree
insert leaf c = node leaf c leaf
insert (node l d r) c = elim (compare_contacts c d) [
  | lt ↦ node (insert l c) d r
  | eq ↦ node l d (insert r c)
  | gt ↦ node l d (insert r c)
]

unfoldable pub count_nodes : Tree → ℕ
count_nodes leaf = 0
count_nodes (node l c r) = 1 + count_nodes l + count_nodes r

-- `storeInOrder`: the entries written so far, `*index` being their number.
unfoldable pub store_in_order : Tree → List Contact → List Contact
store_in_order leaf array = array
store_in_order (node l c r) array = store_in_order r (store_in_order l array ++ c ∷ [])

-- `buildBalanced(array, left, right)`, where `stop` is `right + 1`, so that -1 is 0.
-- `none`: a read outside the array, or no fuel left.
unfoldable pub build_balanced : ℕ → List Contact → ℕ → ℕ → Option Tree
build_balanced zero array left stop = none
build_balanced (suc fuel) array left stop = elim (leb stop left) [
  | true ↦ some leaf
  | false ↦
      let mid = (left + stop - 1) / 2 in
      get_elem? array mid >>= λ c. build_balanced fuel array left mid >>= λ l.
      build_balanced fuel array (mid + 1) stop >>= λ r. some (node l c r)
]

-- `balanceTree`: `malloc_ok` says whether the array could be allocated.
unfoldable pub balance_tree : Bool → Tree → Option Tree
balance_tree malloc_ok root =
    let count = count_nodes root in
    if ltb count 2
    then some root
    else if not malloc_ok
    then some root
    else build_balanced (suc count) (store_in_order root []) 0 count

-- `findMin` on a node, given by its three parts: the parts of the node that it stops at.
unfoldable pub find_min : Tree → Contact → Tree → Tree × Contact × Tree
find_min leaf c r = (leaf, c, r)
find_min (node ll lc lr) c r = find_min ll lc lr

-- The branch of `deleteNode` at the node that compares equal, from its two children. With two
-- children `*tree = *temp` takes over all fields of `temp`, both of its child pointers included.
unfoldable pub remove_root : (Tree → Contact → Option Tree) → Tree → Tree → Option Tree
remove_root again leaf r = some r
remove_root again (node ll lc lr) leaf = some (node ll lc lr)
remove_root again (node ll lc lr) (node rl rc rr) =
    let (tl, temp, tr) = find_min rl rc rr in again tr temp >>= λ tr'. some (node tl temp tr')

-- `deleteNode`. `none`: no fuel left.
unfoldable pub delete_node : ℕ → Tree → Contact → Option Tree
delete_node zero tree key = none
delete_node (suc fuel) leaf key = some leaf
delete_node (suc fuel) (node l c r) key = elim (compare_contacts key c) [
  | lt ↦ delete_node fuel l key >>= λ l'. some (node l' c r)
  | gt ↦ delete_node fuel r key >>= λ r'. some (node l c r')
  | eq ↦ remove_root (delete_node fuel) l r
]

-- The call from `deleteContact`. The fuel bounds the depth of the recursion.
unfoldable pub delete_from : Tree → Contact → Option Tree
delete_from root c = delete_node (suc (count_nodes root)) root c

-- `printTree`: the number and the contact of each entry in print order, and the next number.
unfoldable pub print_tree : Tree → ℕ → List (ℕ × Contact) × ℕ
print_tree leaf num = ([], num)
print_tree (node l c r) num =
    let (before, num') = print_tree l num in
    let (after, num'') = print_tree r (num' + 1) in (before ++ (num', c) ∷ after, num'')

-- `printTreeWithBranches`: the level and the contact of each line.
unfoldable pub print_tree_with_branches : Tree → ℕ → List (ℕ × Contact)
print_tree_with_branches leaf level = []
print_tree_with_branches (node l c r) level =
    print_tree_with_branches r (level + 1) ++ (level, c) ∷ print_tree_with_branches l (level + 1)
