-- ===== src/Contacts/Book/Deletes.antt =====
-- `deleteContact`.
use mathlib.Core.List.{Sublistᴰ}
use mathlib.Core.List.Sublistᴰ
use eltex_summer.Base.{
  ℕ, zero, suc, ◌<◌, [], get_elem?_lt, ◌≡◌, inl, inr, Bool, ◌||◌, some, Bytes, get_elem?,
  Option-cases, Bool-cases, not, ◌==◌, arith,
}
use eltex_summer.Base.Int.{ℤ, pos, negsuc}
use eltex_summer.Contacts.Input.{fgets, sscanf_int}
use eltex_summer.Contacts.{Contact, Tree, count_nodes, store_in_order, delete_from}
use eltex_summer.Contacts.Sorted.{in_order, store_in_order_lem, length-in_order}
use eltex_summer.Contacts.Deletion.{delete_from-IsSearchTree}
use eltex_summer.Contacts.Book.{
  Book, Env, is_null, delete_contact, after_operation, chosen, first_byte,
}
use eltex_summer.Contacts.Book.Valid.{IsValid, after_operation-in_order, IsSearchTree-of_eq}

abbrev pub Shrinks : Book → Book → Type 0
Shrinks b b' = IsValid b' × Sublistᴰ (in_order b'.root) (in_order b.root)

delete_step :
    (ok : Bool) (b : Book) (key : Contact)
    → IsValid b
    → (t : Tree) × (b' : Book) × (delete_from b.root key ≡ some t)
      × (after_operation ok (record b { root = t }) ≡ some b')
      × Shrinks b b'
delete_step ok b key v =
    let (t, et, s, sub) = delete_from-IsSearchTree b.root key v.ordered in
    let (b', e, same, small) = after_operation-in_order ok (record b { root = t }) in
    (
      t,
      b',
      et,
      e,
      (record { ordered = IsSearchTree-of_eq b'.root t same s; counted = small }, rw same sub),
    )

chosen_lt : (count i : ℕ) (z : ℤ) → chosen count z ≡ some i → i < count
unfolding chosen
chosen_lt count i (negsuc n) h = cc
chosen_lt count i (pos zero) h = cc
chosen_lt count i (pos (suc n)) h = ground arith

pub IsEntry-cons :
    (t : Tree) (i : ℕ) (z : ℤ)
    → chosen (count_nodes t) z ≡ some i
    → (c : Contact) × (get_elem? (store_in_order t []) i ≡ some c)
IsEntry-cons t i z h = get_elem?_lt (store_in_order t []) i (
    rw (store_in_order_lem t [])
      (omega (arith, length-in_order t, chosen_lt (count_nodes t) i z h)))

unchanged : (b : Book) → IsValid b → Shrinks b b
unchanged b v = (v, Sublistᴰ.refl _)

-- On a valid book `deleteContact` returns, whatever is typed. The book stays valid and gains no
-- contact.
pub delete_contact-IsValid :
    (env : Env) (b : Book) (stdin : Bytes)
    → IsValid b
    → (b' : Book) × (rest : Bytes) × (delete_contact env b stdin ≡ some (b', rest)) × Shrinks b b'
unfolding delete_contact
delete_contact-IsValid env b stdin v = elim (Bool-cases (is_null b.root || not env.array_ok)) [
  | inl e ↦ (b, stdin, rw e, unchanged b v)
  | inr e ↦
      let (input, s) = fgets 10 env.junk_input stdin in
      let z : ℤ = sscanf_int input env.junk_choice in
      elim (Option-cases (chosen (count_nodes b.root) z)) [
        | inl out ↦ (b, s, rw (e, out), unchanged b v)
        | inr (i, some_i) ↦
            let (key, at) = IsEntry-cons b.root i z some_i in
            let (input', s') = fgets 10 input s in
            elim (Bool-cases ((first_byte input' == b'y') || (first_byte input' == b'Y'))) [
              | inl sure ↦
                  let (t, b', et, eb, r) = delete_step env.balance_ok b key v in
                  (b', s', rw (e, some_i, at, sure, et, eb), r)
              | inr cancelled ↦ (b, s', rw (e, some_i, at, cancelled), unchanged b v)
            ]
      ]
]
