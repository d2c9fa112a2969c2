-- ===== src/Contacts/Book/Edits.antt =====
-- `editContact`: the edited contact stays at its place, so an edit of the key can break the order.
use Prim.Native.Nat.Ordering.{lt, eq, gt}
use eltex_summer.Base.{
  ℕ, zero, suc, ◌-◌, ◌<◌, ◌≡◌, refl, sym, ap, ◌∙◌, inl, inr, ◌⊎◌, not, subst, Option, ◌>>=◌, ◌||◌,
  none, some, List, [], ◌∷◌, ◌++◌, Bytes, set, get_elem?, length, compare, Option-cases, Bool-cases,
  arith,
}
use eltex_summer.Base.Int.{ℤ}
use eltex_summer.Contacts.{Contact, Tree, leaf, node, count_nodes, store_in_order}
use eltex_summer.Contacts.Order.{Le}
use eltex_summer.Contacts.Sorted.{
  in_order, Sorted, store_in_order_lem, IsSearchTree, Sorted-append_right, length-in_order,
}
use eltex_summer.Contacts.Input.{fgets, sscanf_int, rounds}
use eltex_summer.Contacts.Book.Deletes.{IsEntry-cons}
use eltex_summer.Contacts.Book.{Book, Env, is_null, chosen, update_at, edit_loop, edit_contact}

set-left {ℓ} :
    {A : Type ℓ} (xs ys : List A) (i : ℕ) (v : A)
    → i < length xs
    → set (xs ++ ys) i v ≡ set xs i v ++ ys
set-left [] ys i v h = elim h [ ]
set-left (x ∷ xs) ys zero v h = refl
set-left (x ∷ xs) ys (suc i) v h = ap (λ l. x ∷ l) (set-left xs ys i v (omega arith))

set-right {ℓ} :
    {A : Type ℓ} (xs : List A) (y : A) (ys : List A) (i : ℕ) (v : A)
    → length xs < i
    → set (xs ++ y ∷ ys) i v ≡ xs ++ y ∷ set ys (i - length xs - 1) v
set-right [] y ys zero v h = elim h [ ]
set-right [] y ys (suc i) v h = let e : suc i - 0 - 1 ≡ i = omega arith in rw e
set-right (x ∷ xs) y ys zero v h = elim h [ ]
set-right (x ∷ xs) y ys (suc i) v h =
    let e : suc i - suc (length xs) - 1 ≡ i - length xs - 1 = omega arith in
    rw e (ap (λ l. x ∷ l) (set-right xs y ys i v (omega arith)))

set-middle {ℓ} :
    {A : Type ℓ} (xs : List A) (y : A) (ys : List A) (v : A)
    → set (xs ++ y ∷ ys) (length xs) v ≡ xs ++ v ∷ ys
set-middle [] y ys v = refl
set-middle (x ∷ xs) y ys v = ap (λ l. x ∷ l) (set-middle xs y ys v)

compare_cases :
    (i n : ℕ)
    → ((compare i n ≡ lt) × (i < n))
      ⊎ ((compare i n ≡ eq) × (i ≡ n))
      ⊎ ((compare i n ≡ gt) × (n < i))
compare_cases i n = ground arith

-- The write through the chosen pointer changes one entry of the in-order list.
pub in_order-update_at :
    (t : Tree) (i : ℕ) (c' : Contact) → in_order (update_at t i c') ≡ set (in_order t) i c'
unfolding update_at in_order
in_order-update_at leaf i c' = refl
in_order-update_at (node l c r) i c' = elim (compare_cases i (count_nodes l)) [
  | inl (e, h) ↦
      rw (e, update_at, in_order-update_at l i c')
        (sym (set-left (in_order l) (c ∷ in_order r) i c' (omega (arith, length-in_order l))))
  | inr (inl (e, h)) ↦
      let n : i ≡ length (in_order l) = omega (arith, length-in_order l) in
      rw (e, update_at) (rw n (sym (set-middle (in_order l) c (in_order r) c')))
  | inr (inr (e, h)) ↦
      rw (e, update_at, in_order-update_at r (i - count_nodes l - 1) c')
        (rw (← length-in_order l)
          (sym (set-right (in_order l) c (in_order r) i c' (omega (arith, length-in_order l)))))
]

-- What an edit may do to the book: nothing, or a write to one entry that exists.
pub data EditOutcome (b b' : Book) : Type 0 where
  untouched : b' ≡ b → EditOutcome b b'
  written :
      (i : ℕ) (old c' : Contact)
      → get_elem? (in_order b.root) i ≡ some old
      → in_order b'.root ≡ set (in_order b.root) i c'
      → b'.operation_count ≡ b.operation_count
      → EditOutcome b b'

edit_chosen :
    (b b' : Book) (i : ℕ) (r : Option (Contact × Bytes)) (old : Contact) (rest : Bytes)
    → get_elem? (store_in_order b.root []) i ≡ some old
    → ◌>>=◌ {B = Book × Bytes} r (λ (c', s'). some (record b { root = update_at b.root i c' }, s'))
      ≡ some (b', rest)
    → EditOutcome b b'
edit_chosen b b' i none old rest at h = cc
edit_chosen b b' i (some (c', s')) old rest at h =
    let same : record b { root = update_at b.root i c' } ≡ b' = cc in
    written i old c' (rw (store_in_order_lem b.root []) at at)
      (ap (λ x. in_order x.root) (sym same) ∙ in_order-update_at b.root i c')
      (ap (λ x. x.operation_count) (sym same))

-- When `editContact` returns, it has left the book alone or changed the one contact that was
-- chosen, at its place: all other contacts, their order and the count of operations stay.
pub edit_contact-EditOutcome :
    (env : Env) (b b' : Book) (stdin rest : Bytes)
    → edit_contact env b stdin ≡ some (b', rest)
    → EditOutcome b b'
unfolding edit_contact
edit_contact-EditOutcome env b b' stdin rest h =
    elim (Bool-cases (is_null b.root || not env.array_ok)) [
      | inl e ↦ let k = rw e at h in untouched (cc)
      | inr e ↦
          let (input, s) = fgets 10 env.junk_input stdin in
          let z : ℤ = sscanf_int input env.junk_choice in
          elim (Option-cases (chosen (count_nodes b.root) z)) [
            | inl out ↦ let k = rw (e, out) at h in untouched (cc)
            | inr (i, some_i) ↦
                let (old, at) = IsEntry-cons b.root i z some_i in
                edit_chosen b b' i (edit_loop (rounds s) old input z s) old rest at
                  (rw (e, some_i, at) at h)
          ]
    ]

-- The defect: an edit that makes a contact greater than the contact behind it leaves a tree that
-- is no search tree.
pub update_at_breaks_order :
    (t : Tree) (xs ys : List Contact) (a b c' : Contact)
    → in_order t ≡ xs ++ a ∷ b ∷ ys
    → ¬ Le c' b
    → ¬ IsSearchTree (update_at t (length xs) c')
update_at_breaks_order t xs ys a b c' e bad s =
    bad (Sorted-append_right xs (c' ∷ b ∷ ys) (subst Sorted path s)).0.0
  where
    path : in_order (update_at t (length xs) c') ≡ xs ++ c' ∷ b ∷ ys
    path = in_order-update_at t (length xs) c' ∙ rw e (set-middle xs a (b ∷ ys) c')
