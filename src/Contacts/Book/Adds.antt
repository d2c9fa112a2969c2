-- ===== src/Contacts/Book/Adds.antt =====
-- `addContact`: what it reads, and what it does to the book.
use eltex_summer.Base.{
  ℕ, suc, ◌+◌, ◌<◌, ◌≡◌, refl, ap, ◌∙◌, ◌≢◌, true, some, [], ◌∷◌, ◌++◌, Bytes, Without, length,
}
use eltex_summer.Contacts.{Contact, insert}
use eltex_summer.Contacts.Sorted.{in_order}
use eltex_summer.Contacts.Insert.{insert_sorted, in_order-insert, insert-IsSearchTree}
use eltex_summer.Contacts.Input.{read_required}
use eltex_summer.Contacts.Input.Lines.{read_field-newline}
use eltex_summer.Contacts.Book.{Book, Env, read_contact, add_contact}
use eltex_summer.Contacts.Book.Valid.{IsValid, after_operation-in_order, IsSearchTree-of_eq}

-- On a valid book, when the node is allocated and its fields are read, `addContact` returns a
-- valid book that holds the new contact at its place among those of before.
pub add_contact-insert_sorted :
    (env : Env) (b : Book) (stdin rest : Bytes) (c : Contact)
    → IsValid b
    → env.node_ok ≡ true
    → read_contact env.junk stdin ≡ some (c, rest)
    → (b' : Book) × (add_contact env b stdin ≡ some (b', rest))
      × IsValid b'
      × (in_order b'.root ≡ insert_sorted c (in_order b.root))
unfolding add_contact
add_contact-insert_sorted env b stdin rest c v ok h =
    let b₁ : Book = record b { root = insert b.root c } in
    let (b', e, same, small) = after_operation-in_order env.balance_ok b₁ in
    (
      b',
      rw (ok, h, e),
      record {
        ordered =
            IsSearchTree-of_eq b'.root (insert b.root c) same
              (insert-IsSearchTree b.root c v.ordered).0;
        counted = small;
      },
      same ∙ in_order-insert b.root c v.ordered,
    )

-- A typed line of a field of `size` bytes: not too long, and with no newline or zero byte in it.
abbrev pub Typed : ℕ → Bytes → Type 0
Typed size line = Without 10 line × Without 0 line × (length line + 1 < size)

-- The lines of a contact, as a user types them.
pub typed_lines : Contact → Bytes → Bytes
typed_lines c rest =
    c.lastname
    ++ 10
      ∷ (c.name
          ++ 10
            ∷ (c.patronymic
                ++ 10
                  ∷ (c.workplace
                      ++ 10
                        ∷ (c.position
                            ++ 10
                              ∷ (c.phone
                                  ++ 10
                                    ∷ (c.email
                                        ++ 10 ∷ (c.social ++ 10 ∷ (c.messenger ++ 10 ∷ rest))))))))

pub record CanBeTyped (c : Contact) : Type 0 where
  pub lastname : Typed 100 c.lastname
  pub name : Typed 100 c.name
  pub patronymic : Typed 100 c.patronymic
  pub workplace : Typed 100 c.workplace
  pub position : Typed 100 c.position
  pub phone : Typed 20 c.phone
  pub email : Typed 100 c.email
  pub social : Typed 100 c.social
  pub messenger : Typed 100 c.messenger
  pub has_lastname : c.lastname ≢ []
  pub has_name : c.name ≢ []

read_required-newline :
    (fuel size : ℕ) (field line rest : Bytes)
    → line ≢ []
    → Typed size line
    → read_required (suc fuel) size field (line ++ 10 ∷ rest) ≡ some (line, rest)
unfolding read_required
read_required-newline fuel size field [] rest ne t = absurd (ne refl)
read_required-newline fuel size field (c ∷ line) rest ne t =
    let e = read_field-newline size field (c ∷ line) rest t.0 t.1 t.2 in
    rw (e, read_required) (ap (λ p. some (c ∷ line, p.1)) e)

-- The lines that are typed for a contact are what `addContact` reads, whatever the memory held
-- before, provided that each fits its field and holds no newline and no zero byte, and that the
-- last name and the name are not empty.
pub read_contact-typed_lines :
    (junk c : Contact) (rest : Bytes)
    → CanBeTyped c
    → read_contact junk (typed_lines c rest) ≡ some (c, rest)
unfolding read_contact typed_lines
read_contact-typed_lines junk c rest t = rw (
  read_required-newline _ 100 junk.lastname c.lastname _ t.has_lastname t.lastname,
  read_required-newline _ 100 junk.name c.name _ t.has_name t.name,
  read_field-newline 100 junk.patronymic c.patronymic _ t.patronymic.0 t.patronymic.1
      t.patronymic.2,
  read_field-newline 100 junk.workplace c.workplace _ t.workplace.0 t.workplace.1 t.workplace.2,
  read_field-newline 100 junk.position c.position _ t.position.0 t.position.1 t.position.2,
  read_field-newline 20 junk.phone c.phone _ t.phone.0 t.phone.1 t.phone.2,
  read_field-newline 100 junk.email c.email _ t.email.0 t.email.1 t.email.2,
  read_field-newline 100 junk.social c.social _ t.social.0 t.social.1 t.social.2,
  read_field-newline 100 junk.messenger c.messenger _ t.messenger.0 t.messenger.1 t.messenger.2,
)
