-- ===== src/Contacts/Balance.antt =====
-- `balanceTree` keeps the contacts in order and makes the lowest tree that holds them.
use native.Mathlib.Nat.{pow-suc, pow-le-pow_right}
use Prim.Native.Nat.{max}
use eltex_summer.Base.{
  ℕ, zero, suc, ◌+◌, ◌-◌, ◌*◌, ◌/◌, ◌^◌, ◌≤◌, ◌<◌, ◌≡◌, refl, sym, ap, ◌∙◌, inl, inr, true, false,
  some, List, [], ◌∷◌, ◌++◌, length, take, drop, get_elem?, get_elem?_lt, leb, ltb, Bool-cases,
  arith,
}
use eltex_summer.Contacts.{
  Contact, Tree, leaf, node, count_nodes, store_in_order, build_balanced, balance_tree,
}
use eltex_summer.Contacts.Sorted.{in_order, store_in_order_lem, length-in_order}

pub height : Tree → ℕ
height leaf = 0
height (node l c r) = suc (max (height l) (height r))

-- The entries of `array` from `left` up to but not including `stop`.
pub slice : List Contact → ℕ → ℕ → List Contact
slice array left stop = take (stop - left) (drop left array)

take_split {ℓ} :
    {A : Type ℓ} (xs : List A) (i n : ℕ) (a : A)
    → get_elem? xs i ≡ some a
    → i < n
    → take n xs ≡ take i xs ++ a ∷ take (n - suc i) (drop (suc i) xs)
take_split [] i n a h k = cc
take_split (x ∷ xs) i zero a h k = absurd (omega arith)
take_split (x ∷ xs) zero (suc n) a h k = ground arith
take_split (x ∷ xs) (suc i) (suc n) a h k =
    let e : suc n - suc (suc i) ≡ n - suc i = omega arith in
    rw e (ap (λ l. x ∷ l) (take_split xs i n a h (omega arith)))

get_elem?-drop {ℓ} :
    {A : Type ℓ} (xs : List A) (l i : ℕ) → get_elem? (drop l xs) i ≡ get_elem? xs (l + i)
get_elem?-drop xs zero i = let e : 0 + i ≡ i = omega arith in rw e
get_elem?-drop [] (suc l) i = refl
get_elem?-drop (x ∷ xs) (suc l) i =
    let e : suc l + i ≡ suc (l + i) = omega arith in rw e (get_elem?-drop xs l i)

drop-drop {ℓ} : {A : Type ℓ} (xs : List A) (l i : ℕ) → drop i (drop l xs) ≡ drop (l + i) xs
drop-drop xs zero i = let e : 0 + i ≡ i = omega arith in rw e
drop-drop [] (suc l) zero = let e : suc l + 0 ≡ suc l = omega arith in rw e
drop-drop [] (suc l) (suc i) = let e : suc l + suc i ≡ suc (l + suc i) = omega arith in rw e
drop-drop (x ∷ xs) (suc l) i =
    let e : suc l + i ≡ suc (l + i) = omega arith in rw e (drop-drop xs l i)

slice_split :
    (array : List Contact) (left mid stop : ℕ) (c : Contact)
    → get_elem? array mid ≡ some c
    → left ≤ mid
    → mid < stop
    → slice array left stop ≡ slice array left mid ++ c ∷ slice array (mid + 1) stop
unfolding slice
slice_split array left mid stop c h k m =
    let back : left + (mid - left) ≡ mid = omega arith in
    let next : left + suc (mid - left) ≡ mid + 1 = omega arith in
    let size : stop - left - suc (mid - left) ≡ stop - (mid + 1) = omega arith in
    take_split (drop left array) (mid - left) (stop - left) c
      (get_elem?-drop array left (mid - left) ∙ ap (get_elem? array) back ∙ h) (omega arith)
    ∙ ap (λ l. slice array left mid ++ c ∷ l)
        (ap (λ n. take n (drop (suc (mid - left)) (drop left array))) size
          ∙ ap (take (stop - (mid + 1)))
              (drop-drop array left (suc (mid - left)) ∙ ap (λ n. drop n array) next))

-- What a call of `build_balanced` on the entries from `left` to `stop` returns.
record Built (array : List Contact) (left stop fuel : ℕ) : Type 0 where
  tree : Tree
  built : build_balanced fuel array left stop ≡ some tree
  entries : in_order tree ≡ slice array left stop
  low : (d : ℕ) → stop - left < 2 ^ d → height tree ≤ d

slice_empty : (array : List Contact) (left stop : ℕ) → stop ≤ left → slice array left stop ≡ []
unfolding slice
slice_empty array left stop h = let e : stop - left ≡ 0 = omega arith in rw e

node_low :
    (d n hl hr : ℕ)
    → 0 < n
    → n < 2 ^ d
    → ((e : ℕ) → (n - 1) / 2 < 2 ^ e → hl ≤ e)
    → ((e : ℕ) → n / 2 < 2 ^ e → hr ≤ e)
    → suc (max hl hr) ≤ d
node_low zero n hl hr p h kl kr = absurd (omega arith)
node_low (suc d) n hl hr p h kl kr =
    let e : 2 ^ suc d ≡ 2 * 2 ^ d = omega (arith, pow-suc 2 d) in
    let l : hl ≤ d = kl d (omega (arith, e)) in
    let r : hr ≤ d = kr d (omega (arith, e)) in omega arith

-- One level of the recursion, from what the two inner calls return.
join-Built :
    (fuel : ℕ) (array : List Contact) (left stop mid : ℕ) (c : Contact)
    → mid ≡ (left + stop - 1) / 2
    → left < stop
    → leb stop left ≡ false
    → get_elem? array mid ≡ some c
    → Built array left mid fuel
    → Built array (mid + 1) stop fuel
    → Built array left stop (suc fuel)
unfolding build_balanced in_order height
join-Built fuel array left stop mid c em lt e hc l r = record {
  tree = node l.tree c r.tree;
  built = rw (e, build_balanced, ← em, hc, l.built, r.built);
  entries =
      ap (λ x. x ++ c ∷ in_order r.tree) l.entries
      ∙ ap (λ x. slice array left mid ++ c ∷ x) r.entries
      ∙ sym (slice_split array left mid stop c hc (omega arith) (omega arith));
  low = λ d h.
      node_low d (stop - left) (height l.tree) (height r.tree) (omega arith) h
        (λ x k. l.low x (omega arith)) (λ x k. r.low x (omega arith));
}

build_balanced-Built :
    (fuel : ℕ) (array : List Contact) (left stop : ℕ)
    → stop ≤ length array
    → stop - left < fuel
    → Built array left stop fuel
unfolding build_balanced in_order height
build_balanced-Built zero array left stop h k = absurd (omega arith)
build_balanced-Built (suc fuel) array left stop h k = elim (Bool-cases (leb stop left)) [
  | inl e ↦ record {
    tree = leaf;
    built = rw (e, build_balanced);
    entries = sym (slice_empty array left stop (ground arith));
    low = λ d _. omega arith;
  }
  | inr e ↦
      let lt : left < stop = ground arith in
      let mid : ℕ = (left + stop - 1) / 2 in
      let (c, hc) = get_elem?_lt array mid (omega arith) in
      join-Built fuel array left stop mid c refl lt e hc
        (build_balanced-Built fuel array left mid (omega arith) (omega arith))
        (build_balanced-Built fuel array (mid + 1) stop (omega arith) (omega arith))
]

take_all {ℓ} : {A : Type ℓ} (xs : List A) → take (length xs) xs ≡ xs
take_all [] = refl
take_all (x ∷ xs) = ap (λ l. x ∷ l) (take_all xs)

pow_le_max_left : (a b : ℕ) → 2 ^ a ≤ 2 ^ max a b
pow_le_max_left a b = pow-le-pow_right {n = 2} (omega arith) (omega arith)

pow_le_max_right : (a b : ℕ) → 2 ^ b ≤ 2 ^ max a b
pow_le_max_right a b = pow-le-pow_right {n = 2} (omega arith) (omega arith)

-- No tree of height d has 2 ^ d nodes or more.
pub count_nodes-lt-height : (t : Tree) → count_nodes t < 2 ^ height t
unfolding count_nodes height
count_nodes-lt-height leaf = omega arith
count_nodes-lt-height (node l c r) = omega (
  arith,
  count_nodes-lt-height l,
  count_nodes-lt-height r,
  pow-suc 2 (max (height l) (height r)),
  pow_le_max_left (height l) (height r),
  pow_le_max_right (height l) (height r),
)

height-le-count_nodes : (t : Tree) → height t ≤ count_nodes t
unfolding count_nodes height
height-le-count_nodes leaf = omega arith
height-le-count_nodes (node l c r) = omega (arith, height-le-count_nodes l, height-le-count_nodes r)

-- A tree of at most one node is as low as can be.
low_small : (t u : Tree) → count_nodes t < 2 → count_nodes u ≡ count_nodes t → height t ≤ height u
unfolding count_nodes height
low_small t leaf h e = omega (arith, height-le-count_nodes t)
low_small t (node l c r) h e = omega (arith, height-le-count_nodes t)

-- The branch that rebuilds the tree.
rebuilt : (t : Tree) → Built (store_in_order t []) 0 (count_nodes t) (suc (count_nodes t))
rebuilt t =
    build_balanced-Built (suc (count_nodes t)) (store_in_order t []) 0 (count_nodes t)
      (rw (store_in_order_lem t []) (omega (arith, length-in_order t))) (omega arith)

slice_whole : (t : Tree) → slice (store_in_order t []) 0 (count_nodes t) ≡ in_order t
unfolding slice
slice_whole t =
    rw (store_in_order_lem t [])
      (ap (λ n. take n (in_order t)) (omega (arith, length-in_order t)) ∙ take_all (in_order t))

-- Where it gets its array, `balanceTree` ends with a tree of the same contacts in the same order,
-- and no tree `u` with as many nodes is lower.
pub balance_tree_lem :
    (t : Tree)
    → (t' : Tree) × (balance_tree true t ≡ some t')
      × (in_order t' ≡ in_order t)
      × ((u : Tree) → count_nodes u ≡ count_nodes t → height t' ≤ height u)
unfolding balance_tree
balance_tree_lem t = elim (Bool-cases (ltb (count_nodes t) 2)) [
  | inl e ↦ (t, rw e, refl, λ u. low_small t u (ground arith))
  | inr e ↦
      let b = rebuilt t in
      (
        b.tree,
        rw (e, b.built),
        b.entries ∙ slice_whole t,
        λ u k. b.low (height u) (omega (arith, count_nodes-lt-height u)),
      )
]

-- With fewer than two contacts, or without memory, the tree stays as it was.
pub balance_tree_keeps : (t : Tree) → balance_tree false t ≡ some t
unfolding balance_tree
balance_tree_keeps t = ground arith
