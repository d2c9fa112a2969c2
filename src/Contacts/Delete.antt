-- ===== src/Contacts/Delete.antt =====
-- `deleteNode`: what it removes, on each branch, and what it loses at a node with two children.
use Prim.Native.Nat.Ordering.{lt, eq, gt}
use mathlib.Core.List.{append-nil, append_assoc, Sublistᴰ}
use mathlib.Core.List.Sublistᴰ
use eltex_summer.Base.{
  ℕ, zero, suc, ◌+◌, ◌≤◌, ◌<◌, ◌≡◌, refl, sym, ap, ◌∙◌, ◌⊎◌, inl, inr, Option, none, some, List, [],
  ◌∷◌, ◌++◌, Ordering, arith,
}
use eltex_summer.Contacts.{
  Contact, Tree, leaf, node, count_nodes, compare_contacts, find_min, remove_root, delete_node,
}
use eltex_summer.Contacts.Sorted.{in_order}

-- The node at which the search for a key ends, by its parts.
unfoldable pub find_node : Tree → Contact → Option (Tree × Contact × Tree)
find_node leaf key = none
find_node (node l c r) key = elim (compare_contacts key c) [
  | lt ↦ find_node l key
  | gt ↦ find_node r key
  | eq ↦ some (l, c, r)
]

-- The node that `findMin` stops at has no left child, and heads the in-order list.
record Leftmost (l : Tree) (c : Contact) (r : Tree) : Type 0 where
  left_leaf : (find_min l c r).0 ≡ leaf
  rest : List Contact
  entries : in_order l ++ c ∷ in_order r ≡ (find_min l c r).1 ∷ in_order (find_min l c r).2 ++ rest
  smaller : count_nodes (find_min l c r).2 ≤ count_nodes l + count_nodes r

find_min-Leftmost : (l : Tree) (c : Contact) (r : Tree) → Leftmost l c r
unfolding find_min in_order count_nodes
find_min-Leftmost leaf c r = record {
  left_leaf = refl;
  rest = [];
  entries = simp append-nil;
  smaller = omega arith;
}
find_min-Leftmost (node ll lc lr) c r =
    let m = find_min-Leftmost ll lc lr in
    record {
      left_leaf = m.left_leaf;
      rest = m.rest ++ c ∷ in_order r;
      entries = ap (λ x. x ++ c ∷ in_order r) m.entries ∙ simp append_assoc;
      smaller = omega (arith, m.smaller);
    }

-- What `deleteNode` does to a tree.
pub data Outcome (key : Contact) (t t' : Tree) : Type 0 where
  kept : find_node t key ≡ none → t' ≡ t → Outcome key t t'
  removed :
      (l : Tree) (c : Contact) (r : Tree) (xs ys : List Contact)
      → find_node t key ≡ some (l, c, r)
      → (l ≡ leaf) ⊎ (r ≡ leaf)
      → in_order t ≡ xs ++ c ∷ ys
      → in_order t' ≡ xs ++ ys
      → Outcome key t t'
  lost :
      (ll : Tree) (lc : Contact) (lr : Tree) (c : Contact) (rl : Tree) (rc : Contact) (rr : Tree)
      (xs zs ys : List Contact)
      → find_node t key ≡ some (node ll lc lr, c, node rl rc rr)
      → in_order t ≡ xs ++ in_order (node ll lc lr) ++ c ∷ in_order (node rl rc rr) ++ ys
      → in_order t' ≡ xs ++ zs ++ ys
      → Sublistᴰ zs (in_order (node rl rc rr))
      → Outcome key t t'

sublist_rest {ℓ} : {A : Type ℓ} (xs zs : List A) → Sublistᴰ xs (xs ++ zs)
sublist_rest [] zs = Sublistᴰ.nil-sublist zs
sublist_rest (x ∷ xs) zs = Sublistᴰ.cons-cons refl (sublist_rest xs zs)

pub Outcome-sublist :
    {key : Contact} {t t' : Tree} → Outcome key t t' → Sublistᴰ (in_order t') (in_order t)
Outcome-sublist (kept e same) = rw same (Sublistᴰ.refl _)
Outcome-sublist (removed l c r xs ys e free et et') =
    rw (et, et') (Sublistᴰ.append (Sublistᴰ.refl xs) (Sublistᴰ.cons (Sublistᴰ.refl ys)))
Outcome-sublist (lost ll lc lr c rl rc rr xs zs ys e et et' s) =
    rw (et, et')
      (Sublistᴰ.append
        (Sublistᴰ.append (sublist_rest xs (in_order (node ll lc lr))) (Sublistᴰ.cons s))
        (Sublistᴰ.refl ys))

-- A change in the left subtree, seen from the node above it.
lift_left :
    {key : Contact} {l l' : Tree} (c : Contact) (r : Tree)
    → compare_contacts key c ≡ lt
    → Outcome key l l'
    → Outcome key (node l c r) (node l' c r)
unfolding find_node in_order
lift_left c r h (kept e same) = kept (rw (h, find_node) e) (ap (λ x. node x c r) same)
lift_left c r h (removed l₀ c₀ r₀ xs ys e free et et') =
    removed l₀ c₀ r₀ xs (ys ++ c ∷ in_order r) (rw (h, find_node) e) free
      (ap (λ x. x ++ c ∷ in_order r) et ∙ append_assoc xs (c₀ ∷ ys) (c ∷ in_order r))
      (ap (λ x. x ++ c ∷ in_order r) et' ∙ append_assoc xs ys (c ∷ in_order r))
lift_left c r h (lost ll lc lr c₀ rl rc rr xs zs ys e et et' s) =
    lost ll lc lr c₀ rl rc rr xs zs (ys ++ c ∷ in_order r) (rw (h, find_node) e)
      (ap (λ x. x ++ c ∷ in_order r) et ∙ append_assoc _ ys (c ∷ in_order r))
      (ap (λ x. x ++ c ∷ in_order r) et' ∙ append_assoc (xs ++ zs) ys (c ∷ in_order r)) s

lift_right :
    {key : Contact} {r r' : Tree} (l : Tree) (c : Contact)
    → compare_contacts key c ≡ gt
    → Outcome key r r'
    → Outcome key (node l c r) (node l c r')
unfolding find_node in_order
lift_right l c h (kept e same) = kept (rw (h, find_node) e) (ap (λ x. node l c x) same)
lift_right l c h (removed l₀ c₀ r₀ xs ys e free et et') =
    removed l₀ c₀ r₀ (in_order l ++ c ∷ xs) ys (rw (h, find_node) e) free
      (ap (λ x. in_order l ++ c ∷ x) et ∙ sym (append_assoc (in_order l) (c ∷ xs) (c₀ ∷ ys)))
      (ap (λ x. in_order l ++ c ∷ x) et' ∙ sym (append_assoc (in_order l) (c ∷ xs) ys))
lift_right l c h (lost ll lc lr c₀ rl rc rr xs zs ys e et et' s) =
    lost ll lc lr c₀ rl rc rr (in_order l ++ c ∷ xs) zs ys (rw (h, find_node) e)
      (ap (λ x. in_order l ++ c ∷ x) et ∙ simp append_assoc)
      (ap (λ x. in_order l ++ c ∷ x) et' ∙ simp append_assoc) s

-- A call of `deleteNode` that returns.
pub record Deleted (fuel : ℕ) (t : Tree) (key : Contact) : Type 0 where
  pub tree : Tree
  pub returned : delete_node fuel t key ≡ some tree
  pub outcome : Outcome key t tree

abbrev pub Again : ℕ → Type 0
Again fuel = (t : Tree) (key : Contact) → count_nodes t < fuel → Deleted fuel t key

-- The branch where the key compares equal.
delete_root :
    (fuel : ℕ) (l : Tree) (c : Contact) (r : Tree) (key : Contact)
    → compare_contacts key c ≡ eq
    → Again fuel
    → count_nodes r < fuel
    → Deleted (suc fuel) (node l c r) key
unfolding delete_node remove_root find_node in_order count_nodes
delete_root fuel leaf c r key h again k = record {
  tree = r;
  returned = rw (h, delete_node);
  outcome = removed leaf c r [] (in_order r) (rw (h, find_node)) (inl refl) refl refl;
}
delete_root fuel (node ll lc lr) c leaf key h again k = record {
  tree = node ll lc lr;
  returned = rw (h, delete_node);
  outcome =
      removed (node ll lc lr) c leaf (in_order (node ll lc lr)) [] (rw (h, find_node)) (inr refl)
        refl (sym (append-nil (in_order (node ll lc lr))));
}
delete_root fuel (node ll lc lr) c (node rl rc rr) key h again k =
    let m = find_min-Leftmost rl rc rr in
    let d = again (find_min rl rc rr).2 (find_min rl rc rr).1 (omega (arith, m.smaller)) in
    record {
      tree = node (find_min rl rc rr).0 (find_min rl rc rr).1 d.tree;
      returned = rw (h, delete_node, d.returned);
      outcome =
          lost ll lc lr c rl rc rr [] ((find_min rl rc rr).1 ∷ in_order d.tree) []
            (rw (h, find_node)) (sym (append-nil _))
            (rw m.left_leaf (sym (append-nil ((find_min rl rc rr).1 ∷ in_order d.tree))))
            (rw m.entries (
              Sublistᴰ.cons-cons refl (
                Sublistᴰ.trans (Outcome-sublist d.outcome)
                  (sublist_rest (in_order (find_min rl rc rr).2) m.rest))));
    }

Ordering-cases : (o : Ordering) → (o ≡ lt) ⊎ (o ≡ eq) ⊎ (o ≡ gt)
Ordering-cases lt = inl refl
Ordering-cases eq = inr (inl refl)
Ordering-cases gt = inr (inr refl)

pub delete_node-Deleted : (fuel : ℕ) → Again fuel
unfolding delete_node count_nodes find_node
delete_node-Deleted zero t key k = absurd (omega arith)
delete_node-Deleted (suc fuel) leaf key k = record {
  tree = leaf;
  returned = refl;
  outcome = kept refl refl;
}
delete_node-Deleted (suc fuel) (node l c r) key k = elim (Ordering-cases (compare_contacts key c)) [
  | inl h ↦
      let d = delete_node-Deleted fuel l key (omega arith) in
      record {
        tree = node d.tree c r;
        returned = rw (h, delete_node, d.returned);
        outcome = lift_left c r h d.outcome;
      }
  | inr (inl h) ↦ delete_root fuel l c r key h (delete_node-Deleted fuel) (omega arith)
  | inr (inr h) ↦
      let d = delete_node-Deleted fuel r key (omega arith) in
      record {
        tree = node l c d.tree;
        returned = rw (h, delete_node, d.returned);
        outcome = lift_right l c h d.outcome;
      }
]
