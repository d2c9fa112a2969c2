-- ===== src/Contacts/Deletion.antt =====
-- What `deleteContact` may rely on when it calls `deleteNode` on the whole tree.
use mathlib.Core.List.{Sublistᴰ}
use eltex_summer.Base.{suc, ◌≡◌, ◌⊎◌, inl, inr, none, some, List, ◌∷◌, ◌++◌, All, arith}
use eltex_summer.Contacts.{Contact, Tree, leaf, node, count_nodes, delete_from}
use eltex_summer.Contacts.Order.{Le}
use eltex_summer.Contacts.Sorted.{in_order, Sorted, IsSearchTree}
use eltex_summer.Contacts.Delete.{
  find_node, Outcome, kept, removed, lost, Outcome-sublist, Deleted, delete_node-Deleted,
}

All-sublist {ℓ} :
    (P : Contact → Type ℓ) {xs ys : List Contact} → Sublistᴰ xs ys → All P ys → All P xs
All-sublist P Sublistᴰ.slnil h = tt
All-sublist P (Sublistᴰ.cons s) h = All-sublist P s h.1
All-sublist P (Sublistᴰ.cons-cons e s) h = (rw e h.0, All-sublist P s h.1)

Sorted-sublist : {xs ys : List Contact} → Sublistᴰ xs ys → Sorted ys → Sorted xs
Sorted-sublist Sublistᴰ.slnil h = tt
Sorted-sublist (Sublistᴰ.cons s) h = Sorted-sublist s h.1
Sorted-sublist (Sublistᴰ.cons-cons e s) h = (rw e (All-sublist (Le _) s h.0), Sorted-sublist s h.1)

deleted : (t : Tree) (key : Contact) → Deleted (suc (count_nodes t)) t key
deleted t key = delete_node-Deleted (suc (count_nodes t)) t key (omega arith)

-- On a search tree `deleteNode` returns, keeps the search tree invariant and brings in no contact.
pub delete_from-IsSearchTree :
    (t : Tree) (key : Contact)
    → IsSearchTree t
    → (t' : Tree) × (delete_from t key ≡ some t')
      × IsSearchTree t'
      × Sublistᴰ (in_order t') (in_order t)
unfolding delete_from
delete_from-IsSearchTree t key s =
    let d = deleted t key in
    let sub = Outcome-sublist d.outcome in (d.tree, d.returned, Sorted-sublist sub s, sub)

-- A key that the search does not find leaves the tree as it was.
pub delete_from_missing :
    (t : Tree) (key : Contact) → find_node t key ≡ none → delete_from t key ≡ some t
unfolding delete_from
delete_from_missing t key h = by_outcome (deleted t key).outcome
  where
    by_outcome : Outcome key t (deleted t key).tree → delete_from t key ≡ some t
    by_outcome (kept e same) = rw ((deleted t key).returned, same)
    by_outcome (removed l c r xs ys e free et et') = cc
    by_outcome (lost ll lc lr c rl rc rr xs zs ys e et et' s) = cc

-- Where the search ends at a node with a free side, exactly the contact of that node goes, and all
-- others stay in their order.
pub delete_from_free_side :
    (t : Tree) (key : Contact) (l : Tree) (c : Contact) (r : Tree)
    → find_node t key ≡ some (l, c, r)
    → (l ≡ leaf) ⊎ (r ≡ leaf)
    → (t' : Tree) × (xs : List Contact) × (ys : List Contact) × (delete_from t key ≡ some t')
      × (in_order t ≡ xs ++ c ∷ ys)
      × (in_order t' ≡ xs ++ ys)
unfolding delete_from
delete_from_free_side t key l c r h free = by_outcome (deleted t key).outcome
  where
    by_outcome :
        Outcome key t (deleted t key).tree
        → (t' : Tree) × (xs : List Contact) × (ys : List Contact) × (delete_from t key ≡ some t')
          × (in_order t ≡ xs ++ c ∷ ys)
          × (in_order t' ≡ xs ++ ys)
    by_outcome (kept e same) = cc
    by_outcome (removed l' c' r' xs ys e free' et et') =
        let same : c' ≡ c = cc in
        ((deleted t key).tree, xs, ys, (deleted t key).returned, rw (← same) et, et')
    by_outcome (lost ll lc lr c' rl rc rr xs zs ys e et et' s) = elim free [
      | inl f ↦ cc
      | inr f ↦ cc
    ]

-- The defect: where the search ends at a node with two children, the whole left subtree goes with
-- the contact of the node, and of the right subtree a part `zs` stays; all before and behind the
-- two subtrees stays.
pub delete_from_two_children :
    (t : Tree) (key : Contact) (ll : Tree) (lc : Contact) (lr : Tree) (c : Contact) (rl : Tree)
    (rc : Contact) (rr : Tree)
    → find_node t key ≡ some (node ll lc lr, c, node rl rc rr)
    → (t' : Tree) × (xs : List Contact) × (zs : List Contact) × (ys : List Contact) × (delete_from t
          key
        ≡ some t')
      × (in_order t ≡ xs ++ in_order (node ll lc lr) ++ c ∷ in_order (node rl rc rr) ++ ys)
      × (in_order t' ≡ xs ++ zs ++ ys)
      × Sublistᴰ zs (in_order (node rl rc rr))
unfolding delete_from
delete_from_two_children t key ll lc lr c rl rc rr h = by_outcome (deleted t key).outcome
  where
    by_outcome :
        Outcome key t (deleted t key).tree
        → (t' : Tree) × (xs : List Contact) × (zs : List Contact) × (ys : List Contact)
          × (delete_from t key ≡ some t')
          × (in_order t ≡ xs ++ in_order (node ll lc lr) ++ c ∷ in_order (node rl rc rr) ++ ys)
          × (in_order t' ≡ xs ++ zs ++ ys)
          × Sublistᴰ zs (in_order (node rl rc rr))
    by_outcome (kept e same) = cc
    by_outcome (removed l' c' r' xs ys e free et et') = elim free [ inl f ↦ cc | inr f ↦ cc ]
    by_outcome (lost ll' lc' lr' c' rl' rc' rr' xs zs ys e et et' s) =
        let left : node ll' lc' lr' ≡ node ll lc lr = cc in
        let middle : c' ≡ c = cc in
        let right : node rl' rc' rr' ≡ node rl rc rr = cc in
        (
          (deleted t key).tree,
          xs,
          zs,
          ys,
          (deleted t key).returned,
          rw (← left, ← middle, ← right) et,
          et',
          rw (← right) s,
        )
