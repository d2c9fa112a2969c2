-- ===== src/Contacts/Examples.antt =====
-- The phone book on small inputs.
use mathlib.Core.List.{Sublistᴰ}
use eltex_summer.Base.{◌≤◌, ◌≡◌, refl, true, some, List, [], ◌∷◌, ◌++◌, Bytes, codes, cut_at, arith}
use eltex_summer.Base.Int.{pos}
use eltex_summer.Contacts.{
  Contact, Tree, leaf, node, insert, count_nodes, delete_node, remove_root, find_min, balance_tree,
  delete_from, compare_contacts, store_in_order,
}
use eltex_summer.Contacts.Sorted.{in_order, IsSearchTree}
use eltex_summer.Contacts.Insert.{insert_sorted, in_order-insert}
use eltex_summer.Contacts.Balance.{height, balance_tree_lem}
use eltex_summer.Contacts.Delete.{find_node}
use eltex_summer.Contacts.Deletion.{delete_from-IsSearchTree, delete_from_two_children}
use eltex_summer.Contacts.Book.{
  Book, Env, add_contact, delete_contact, edit_contact, update_at, is_null, chosen, edit_loop,
  edit_field,
}
use eltex_summer.Contacts.Input.{sscanf_int, fgets, read_field}
use eltex_summer.Contacts.Book.Valid.{IsValid}
use eltex_summer.Contacts.Book.Adds.{
  typed_lines, CanBeTyped, add_contact-insert_sorted, read_contact-typed_lines,
}
use eltex_summer.Contacts.Book.Deletes.{Shrinks, delete_contact-IsValid}

abbrev person : Bytes → Bytes → Contact
person last first = record {
  lastname = last;
  name = first;
  patronymic = [];
  workplace = [];
  position = [];
  phone = [];
  email = [];
  social = [];
  messenger = [];
}

abbrev ann : Contact
ann = person (codes "A") (codes "Ann")

abbrev bob : Contact
bob = person (codes "B") (codes "Bob")

abbrev cat : Contact
cat = person (codes "C") (codes "Cat")

-- Bob at the root, between Ann and Cat.
abbrev family : Tree
family = node (node leaf ann leaf) bob (node leaf cat leaf)

-- Only Ann and Bob, one below the other.
abbrev pair : Tree
pair = node leaf ann (node leaf bob leaf)

in_order-pair : in_order pair ≡ ann ∷ bob ∷ []
unfolding in_order
in_order-pair = refl

family-IsSearchTree : IsSearchTree family
unfolding in_order compare_contacts
family-IsSearchTree = ((λ e. cc, (λ e. cc, tt)), ((λ e. cc, tt), (tt, tt)))

pair-IsSearchTree : IsSearchTree pair
unfolding in_order compare_contacts
pair-IsSearchTree = ((λ e. cc, tt), (tt, tt))

in_order-insert_example : in_order (insert pair cat) ≡ insert_sorted cat (in_order pair)
in_order-insert_example = in_order-insert pair cat pair-IsSearchTree

balance_tree_lem_example :
    (t' : Tree) × (balance_tree true pair ≡ some t')
    × (in_order t' ≡ in_order pair)
    × ((u : Tree) → count_nodes u ≡ count_nodes pair → height t' ≤ height u)
balance_tree_lem_example = balance_tree_lem pair

delete_from-IsSearchTree_example :
    (t' : Tree) × (delete_from family bob ≡ some t')
    × IsSearchTree t'
    × Sublistᴰ (in_order t') (in_order family)
delete_from-IsSearchTree_example = delete_from-IsSearchTree family bob family-IsSearchTree

delete_from_two_children_example :
    (t' : Tree) × (xs : List Contact) × (zs : List Contact) × (ys : List Contact) × (delete_from
        family bob
      ≡ some t')
    × (in_order family
        ≡ xs ++ in_order (node leaf ann leaf) ++ bob ∷ in_order (node leaf cat leaf) ++ ys)
    × (in_order t' ≡ xs ++ zs ++ ys)
    × Sublistᴰ zs (in_order (node leaf cat leaf))
unfolding find_node compare_contacts
delete_from_two_children_example =
    delete_from_two_children family bob leaf ann leaf bob leaf cat leaf refl

-- Ann is gone together with Bob.
delete_bob : delete_from family bob ≡ some (node leaf cat leaf)
unfolding delete_from compare_contacts delete_node remove_root count_nodes find_min
delete_bob = refl

abbrev surroundings : Env
surroundings = record {
  node_ok = true;
  array_ok = true;
  balance_ok = true;
  junk = ann;
  junk_input = [];
  junk_choice = pos 0;
}

-- The book is about to be balanced.
abbrev pair_book : Book
pair_book = record { root = pair; operation_count = 9 }

pair_book-IsValid : IsValid pair_book
pair_book-IsValid = record { ordered = pair-IsSearchTree; counted = omega arith }

cat-CanBeTyped : CanBeTyped cat
cat-CanBeTyped = record {
  lastname = omega arith;
  name = omega arith;
  patronymic = omega arith;
  workplace = omega arith;
  position = omega arith;
  phone = omega arith;
  email = omega arith;
  social = omega arith;
  messenger = omega arith;
  has_lastname = λ e. cc;
  has_name = λ e. cc;
}

add_contact-insert_sorted_example :
    (b' : Book) × (add_contact surroundings pair_book (typed_lines cat []) ≡ some (b', []))
    × IsValid b'
    × (in_order b'.root ≡ insert_sorted cat (in_order pair))
add_contact-insert_sorted_example =
    add_contact-insert_sorted surroundings pair_book (typed_lines cat []) [] cat pair_book-IsValid
      refl (read_contact-typed_lines ann cat [] cat-CanBeTyped)

-- The second contact, and "y" to confirm.
abbrev delete_second : Bytes
delete_second = b'2' ∷ 10 ∷ b'y' ∷ 10 ∷ []

delete_contact-IsValid_example :
    (b' : Book) × (rest : Bytes) × (delete_contact surroundings pair_book delete_second
      ≡ some (b', rest))
    × Shrinks pair_book b'
delete_contact-IsValid_example =
    delete_contact-IsValid surroundings pair_book delete_second pair_book-IsValid

-- The second contact gets the phone number 7.
abbrev edit_second : Bytes
edit_second = b'2' ∷ 10 ∷ b'6' ∷ 10 ∷ b'7' ∷ 10 ∷ b'0' ∷ 10 ∷ []

abbrev called_bob : Contact
called_bob = record bob { phone = codes "7" }

edit_contact_second :
    edit_contact surroundings pair_book edit_second
    ≡ some (record pair_book { root = update_at pair 1 called_bob }, [])
unfolding edit_contact is_null chosen sscanf_int fgets cut_at count_nodes store_in_order edit_loop
    edit_field read_field
edit_contact_second = refl
