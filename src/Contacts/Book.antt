-- ===== src/Contacts/Book.antt =====
-- The commands of contacts.c and the menu of main.c over the book: the globals `root` and
-- `operationCount`. A command gets the bytes still to be typed and returns those that it leaves.
-- Whether `malloc` succeeds, and what uninitialised memory holds, are arguments.
-- `none`: the command never returns, since the input has ended before it got what it waits for.
pub mod Valid
pub mod Adds
pub mod Deletes
pub mod Edits
pub mod Fuel
pub mod Shows
use eltex_summer.Base.{
  ℕ, zero, suc, ◌+◌, ◌-◌, Bool, true, false, not, ◌||◌, Option, none, some, List, [], ◌∷◌, Bytes,
  get_elem?, compare, Ordering, ltb, leb, ◌==◌, if◌then◌else◌, ◌>>=◌,
}
use eltex_summer.Base.Int.{ℤ, pos, negsuc}
use eltex_summer.Contacts.{
  Contact, Tree, leaf, node, insert, count_nodes, store_in_order, balance_tree, delete_from,
  print_tree,
}
use eltex_summer.Contacts.Input.{fgets, read_field, read_required, rounds, sscanf_int}

pub record Book : Type 0 where
  pub root : Tree
  pub operation_count : ℕ

-- What the surroundings decide.
pub record Env : Type 0 where
  pub node_ok : Bool
  pub array_ok : Bool
  pub balance_ok : Bool
  pub junk : Contact
  pub junk_input : Bytes
  pub junk_choice : ℤ

-- `operationCount++`, and every tenth time `balanceTree`.
unfoldable pub after_operation : Bool → Book → Option Book
after_operation balance_ok b =
    let count = b.operation_count + 1 in
    if leb 10 count
    then (balance_tree balance_ok b.root >>= λ t. some (record { root = t; operation_count = 0 }))
    else some (record b { operation_count = count })

-- The prompts of `addContact`, in their order, into the fields of the new node.
unfoldable pub read_contact : Contact → Bytes → Option (Contact × Bytes)
read_contact c stdin = do
  (lastname, s) ← read_required (rounds stdin) 100 c.lastname stdin
  (name, s) ← read_required (rounds s) 100 c.name s
  let (patronymic, s) = read_field 100 c.patronymic s
  let (workplace, s) = read_field 100 c.workplace s
  let (position, s) = read_field 100 c.position s
  let (phone, s) = read_field 20 c.phone s
  let (email, s) = read_field 100 c.email s
  let (social, s) = read_field 100 c.social s
  let (messenger, s) = read_field 100 c.messenger s
  some (
    record {
      lastname = lastname;
      name = name;
      patronymic = patronymic;
      workplace = workplace;
      position = position;
      phone = phone;
      email = email;
      social = social;
      messenger = messenger;
    },
    s,
  )

-- `root == NULL`
unfoldable pub is_null : Tree → Bool
is_null leaf = true
is_null (node l c r) = false

-- `addContact`
unfoldable pub add_contact : Env → Book → Bytes → Option (Book × Bytes)
add_contact env b stdin =
    if not env.node_ok
    then some (b, stdin)
    else (read_contact env.junk stdin >>= λ (c, rest).
        after_operation env.balance_ok (record b { root = insert b.root c }) >>= λ b'.
        some (b', rest))

-- `choice < 1 || choice > count` as an early return; otherwise the index `choice - 1`.
unfoldable pub chosen : ℕ → ℤ → Option ℕ
chosen count (negsuc n) = none
chosen count (pos zero) = none
chosen count (pos (suc i)) = if ltb count (suc i) then none else some i

-- The write through the pointer `array[i]`: the node at place `i` from the left changes.
unfoldable pub update_at : Tree → ℕ → Contact → Tree
update_at leaf i c' = leaf
update_at (node l c r) i c' = elim (compare i (count_nodes l)) [
  | Ordering.lt ↦ node (update_at l i c') c r
  | Ordering.eq ↦ node l c' r
  | Ordering.gt ↦ node l c (update_at r (i - count_nodes l - 1) c')
]

-- One pass of the `switch` in `editContact`.
unfoldable pub edit_field : ℤ → Contact → Bytes → Option (Contact × Bytes)
edit_field (negsuc n) c s = some (c, s)
edit_field (pos n) c s =
    if n == 1
    then (read_required (rounds s) 100 c.lastname s >>= λ (v, r).
        some (record c { lastname = v }, r))
    else if n == 2
    then (read_required (rounds s) 100 c.name s >>= λ (v, r). some (record c { name = v }, r))
    else if n == 3
    then (let (v, r) = read_field 100 c.patronymic s in some (record c { patronymic = v }, r))
    else if n == 4
    then (let (v, r) = read_field 100 c.workplace s in some (record c { workplace = v }, r))
    else if n == 5
    then (let (v, r) = read_field 100 c.position s in some (record c { position = v }, r))
    else if n == 6
    then (let (v, r) = read_field 20 c.phone s in some (record c { phone = v }, r))
    else if n == 7
    then (let (v, r) = read_field 100 c.email s in some (record c { email = v }, r))
    else if n == 8
    then (let (v, r) = read_field 100 c.social s in some (record c { social = v }, r))
    else if n == 9
    then (let (v, r) = read_field 100 c.messenger s in some (record c { messenger = v }, r))
    else some (c, s)

-- The `do … while (choice != 0)` of `editContact`, over the contact, `input` and `choice`.
unfoldable pub edit_loop : ℕ → Contact → Bytes → ℤ → Bytes → Option (Contact × Bytes)
edit_loop zero c input choice stdin = none
edit_loop (suc fuel) c input choice stdin =
    let (input', s) = fgets 10 input stdin in
    let choice' = sscanf_int input' choice in
    edit_field choice' c s >>= λ (c', s'). elim choice' [
      | pos zero ↦ some (c', s')
      | pos (suc n) ↦ edit_loop fuel c' input' (pos (suc n)) s'
      | negsuc n ↦ edit_loop fuel c' input' (negsuc n) s'
    ]

-- `editContact`
unfoldable pub edit_contact : Env → Book → Bytes → Option (Book × Bytes)
edit_contact env b stdin =
    if is_null b.root || not env.array_ok
    then some (b, stdin)
    else let (input, s) = fgets 10 env.junk_input stdin in
      let choice = sscanf_int input env.junk_choice in
      elim (chosen (count_nodes b.root) choice) [
        | none ↦ some (b, s)
        | some i ↦ get_elem? (store_in_order b.root []) i >>= λ old.
            edit_loop (rounds s) old input choice s >>= λ (c', s').
            some (record b { root = update_at b.root i c' }, s')
      ]

-- `input[0]`
unfoldable pub first_byte : Bytes → ℕ
first_byte [] = 0
first_byte (c ∷ s) = c

-- `deleteContact`
unfoldable pub delete_contact : Env → Book → Bytes → Option (Book × Bytes)
delete_contact env b stdin =
    if is_null b.root || not env.array_ok
    then some (b, stdin)
    else let (input, s) = fgets 10 env.junk_input stdin in
      elim (chosen (count_nodes b.root) (sscanf_int input env.junk_choice)) [
        | none ↦ some (b, s)
        | some i ↦ get_elem? (store_in_order b.root []) i >>= λ key.
            let (input', s') = fgets 10 input s in
            if (first_byte input' == b'y') || (first_byte input' == b'Y')
            then (delete_from b.root key >>= λ t.
                after_operation env.balance_ok (record b { root = t }) >>= λ b'. some (b', s'))
            else some (b, s')
      ]

-- `showContacts`: the numbered entries, from 1.
unfoldable pub show_contacts : Book → List (ℕ × Contact)
show_contacts b = (print_tree b.root 1).0

-- The `switch` of `main`; `showContacts` and `printTreeStructure` only print.
unfoldable pub menu_choice : Env → ℤ → Book → Bytes → Option (Book × Bytes)
menu_choice env (negsuc n) b s = some (b, s)
menu_choice env (pos n) b s =
    if n == 1
    then add_contact env b s
    else if n == 3
    then edit_contact env b s
    else if n == 4
    then delete_contact env b s
    else some (b, s)

-- `main`. Round by round, `envs` says how the surroundings behave. The book is the last one.
unfoldable pub menu_loop : ℕ → (ℕ → Env) → Bytes → ℤ → Book → Bytes → Option Book
menu_loop zero envs input choice b stdin = none
menu_loop (suc fuel) envs input choice b stdin =
    let (input', s) = fgets 10 input stdin in
    let choice' = sscanf_int input' choice in
    menu_choice (envs fuel) choice' b s >>= λ (b', s'). elim choice' [
      | pos zero ↦ some b'
      | pos (suc n) ↦ menu_loop fuel envs input' (pos (suc n)) b' s'
      | negsuc n ↦ menu_loop fuel envs input' (negsuc n) b' s'
    ]
