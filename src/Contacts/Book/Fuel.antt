-- ===== src/Contacts/Book/Fuel.antt =====
-- The fuel of the input loops is enough.
use eltex_summer.Base.{
  ℕ, zero, suc, ◌-◌, ◌<◌, ◌≤◌, ◌≡◌, refl, sym, ◌∙◌, ◌≢◌, inl, inr, Bool, true, false, Option, none,
  some, [], ◌∷◌, Bytes, length, ◌==◌, ◌>>=◌, if◌then◌else◌, Option-cases, arith,
}
use eltex_summer.Base.Int.{ℤ, pos, negsuc}
use eltex_summer.Base.Scan.{scan_signed}
use eltex_summer.Contacts.{Contact}
use eltex_summer.Contacts.Input.{read_line, fgets, read_field, read_required, sscanf_int}
use eltex_summer.Contacts.Book.{edit_field, edit_loop}

length-read_line_rest : (limit : ℕ) (s : Bytes) → length (read_line limit s).1 ≤ length s
unfolding read_line
length-read_line_rest zero s = omega arith
length-read_line_rest (suc limit) [] = omega arith
length-read_line_rest (suc limit) (c ∷ s) = ground (arith, length-read_line_rest limit s)

length-fgets : (size : ℕ) (buffer s : Bytes) → length (fgets size buffer s).1 ≤ length s
unfolding fgets
length-fgets size buffer [] = omega arith
length-fgets size buffer (c ∷ s) = length-read_line_rest (size - 1) (c ∷ s)

read_line_takes : (limit c : ℕ) (s : Bytes) → length (read_line (suc limit) (c ∷ s)).1 ≤ length s
unfolding read_line
read_line_takes limit c s = ground (arith, length-read_line_rest limit s)

-- A line takes at least one byte.
fgets_takes : (buffer : Bytes) (c : ℕ) (s : Bytes) → length (fgets 10 buffer (c ∷ s)).1 ≤ length s
unfolding fgets
fgets_takes buffer c s = read_line_takes 8 c s

length-read_field : (size : ℕ) (field s : Bytes) → length (read_field size field s).1 ≤ length s
unfolding read_field
length-read_field size field s = length-fgets size field s

required_line :
    (again : Bytes → Option (Bytes × Bytes)) (p : Bytes × Bytes) (v r s : Bytes)
    → (again p.1 ≡ some (v, r) → length r ≤ length p.1)
    → length p.1 ≤ length s
    → (elim p.0 as (λ _. Option (Bytes × Bytes)) [ [] ↦ again p.1 | c ∷ cs ↦ some (c ∷ cs, p.1) ])
      ≡ some (v, r)
    → length r ≤ length s
required_line again ([], rest) v r s ih l k = omega (arith, ih k, l)
required_line again (c ∷ cs, rest) v r s ih l k = let e : rest ≡ r = cc in rw (← e) l

length-read_required :
    (fuel size : ℕ) (field s v r : Bytes)
    → read_required fuel size field s ≡ some (v, r)
    → length r ≤ length s
unfolding read_required
length-read_required zero size field s v r h = cc
length-read_required (suc fuel) size field s v r h =
    required_line (read_required fuel size []) (read_field size field s) v r s
      (length-read_required fuel size [] (read_field size field s).1 v r)
      (length-read_field size field s) h

Shorter : Bytes → Option (Contact × Bytes) → Type 0
Shorter s o = (c : Contact) (r : Bytes) → o ≡ some (c, r) → length r ≤ length s

bind-Shorter :
    (s : Bytes) (o : Option (Bytes × Bytes)) (f : Bytes → Contact)
    → ((v r : Bytes) → o ≡ some (v, r) → length r ≤ length s)
    → Shorter s (o >>= λ (v, r). some (f v, r))
unfolding Shorter
bind-Shorter s none f h c r k = cc
bind-Shorter s (some (v, r')) f h c r k = let e : r' ≡ r = cc in rw (← e) (h v r' refl)

required-Shorter :
    (fuel size : ℕ) (field s : Bytes) (f : Bytes → Contact)
    → Shorter s (read_required fuel size field s >>= λ (v, r). some (f v, r))
required-Shorter fuel size field s f =
    bind-Shorter s (read_required fuel size field s) f (length-read_required fuel size field s)

some-Shorter : (c : Contact) (r s : Bytes) → length r ≤ length s → Shorter s (some (c, r))
unfolding Shorter
some-Shorter c r s h c' r' k = let e : r ≡ r' = cc in rw (← e) h

if-Shorter :
    (b : Bool) (s : Bytes) (o p : Option (Contact × Bytes))
    → Shorter s o
    → Shorter s p
    → Shorter s (if b then o else p)
if-Shorter true s o p h k = h
if-Shorter false s o p h k = k

edit_field-Shorter : (z : ℤ) (c : Contact) (s : Bytes) → Shorter s (edit_field z c s)
unfolding edit_field
edit_field-Shorter (negsuc n) c s = some-Shorter c s s (omega arith)
edit_field-Shorter (pos n) c s =
    if-Shorter (n == 1) s _ _ (required-Shorter _ 100 c.lastname s (λ v. record c { lastname = v }))
      (if-Shorter (n == 2) s _ _ (required-Shorter _ 100 c.name s (λ v. record c { name = v })) (
        if-Shorter (n == 3) s _ _ (some-Shorter _ _ s (length-read_field 100 c.patronymic s)) (
          if-Shorter (n == 4) s _ _ (some-Shorter _ _ s (length-read_field 100 c.workplace s)) (
            if-Shorter (n == 5) s _ _ (some-Shorter _ _ s (length-read_field 100 c.position s)) (
              if-Shorter (n == 6) s _ _ (some-Shorter _ _ s (length-read_field 20 c.phone s)) (
                if-Shorter (n == 7) s _ _ (some-Shorter _ _ s (length-read_field 100 c.email s)) (
                  if-Shorter (n == 8) s _ _ (some-Shorter _ _ s (length-read_field 100 c.social s))
                    (if-Shorter (n == 9) s _ _
                      (some-Shorter _ _ s (length-read_field 100 c.messenger s))
                      (some-Shorter c s s (omega arith))))))))))

-- Two rounds with the same choice and the same field agree if the rounds behind them do.
round_same :
    (z : ℤ) (o : Option (Contact × Bytes)) (f g : ℤ → Contact → Bytes → Option (Contact × Bytes))
    → ((c : Contact) (r : Bytes) → o ≡ some (c, r) → z ≢ pos 0 → f z c r ≡ g z c r)
    → (o >>= λ (c, r). elim z as (λ _. Option (Contact × Bytes)) [
      | pos zero ↦ some (c, r)
      | pos (suc n) ↦ f (pos (suc n)) c r
      | negsuc n ↦ f (negsuc n) c r
    ])
      ≡ (o >>= λ (c, r). elim z as (λ _. Option (Contact × Bytes)) [
        | pos zero ↦ some (c, r)
        | pos (suc n) ↦ g (pos (suc n)) c r
        | negsuc n ↦ g (negsuc n) c r
      ])
round_same z none f g h = refl
round_same (pos zero) (some (c, r)) f g h = refl
round_same (pos (suc n)) (some (c, r)) f g h = h c r refl (λ e. cc)
round_same (negsuc n) (some (c, r)) f g h = h c r refl (λ e. cc)

sscanf_int_again :
    (input : Bytes) (choice : ℤ)
    → sscanf_int input (sscanf_int input choice) ≡ sscanf_int input choice
unfolding sscanf_int
sscanf_int_again input choice = elim (Option-cases (scan_signed input)) [
  | inl n ↦ rw (n, sscanf_int, n, sscanf_int)
  | inr (z, n) ↦ rw (n, sscanf_int)
]

empty_of_length : (s : Bytes) → length s ≤ 0 → s ≡ []
empty_of_length [] h = refl
empty_of_length (c ∷ s) h = absurd (omega arith)

round_none :
    (z : ℤ) (o : Option (Contact × Bytes)) (f : ℤ → Contact → Bytes → Option (Contact × Bytes))
    → z ≢ pos 0
    → ((c : Contact) (r : Bytes) → o ≡ some (c, r) → f z c r ≡ none)
    → (o >>= λ (c, r). elim z as (λ _. Option (Contact × Bytes)) [
      | pos zero ↦ some (c, r)
      | pos (suc n) ↦ f (pos (suc n)) c r
      | negsuc n ↦ f (negsuc n) c r
    ])
      ≡ none
round_none z none f ne h = refl
round_none (pos zero) (some (c, r)) f ne h = absurd (ne refl)
round_none (pos (suc n)) (some (c, r)) f ne h = h c r refl
round_none (negsuc n) (some (c, r)) f ne h = h c r refl

-- Once the input has ended, the loop does not return but for the choice 0.
edit_loop_ended :
    (fuel : ℕ) (c : Contact) (input : Bytes) (choice : ℤ) (s : Bytes)
    → s ≡ []
    → sscanf_int input choice ≢ pos 0
    → edit_loop fuel c input choice s ≡ none
unfolding edit_loop fgets Shorter
edit_loop_ended zero c input choice s e ne = refl
edit_loop_ended (suc fuel) c input choice (b ∷ s) e ne = cc
edit_loop_ended (suc fuel) c input choice [] e ne =
    let z : ℤ = sscanf_int input choice in
    round_none z (edit_field z c []) (λ z c r. edit_loop fuel c input z r) ne
      (λ c' r k.
        edit_loop_ended fuel c' input z r (empty_of_length r (edit_field-Shorter z c [] c' r k))
          (λ k. ne (sym (sscanf_int_again input choice) ∙ k)))

-- The fuel of the loop in `editContact` is enough: any two amounts of fuel above the number of
-- bytes still to be typed give the same result.
pub edit_loop_fuel :
    (f g : ℕ) (c : Contact) (input : Bytes) (choice : ℤ) (s : Bytes)
    → length s < f
    → length s < g
    → edit_loop f c input choice s ≡ edit_loop g c input choice s
unfolding edit_loop fgets Shorter
edit_loop_fuel zero g c input choice s h k = absurd (omega arith)
edit_loop_fuel (suc f) zero c input choice s h k = absurd (omega arith)
edit_loop_fuel (suc f) (suc g) c input choice [] h k =
    let z : ℤ = sscanf_int input choice in
    round_same z (edit_field z c []) (λ z c r. edit_loop f c input z r)
      (λ z c r. edit_loop g c input z r)
      (λ c' r e ne.
        let empty = empty_of_length r (edit_field-Shorter z c [] c' r e) in
        let ne' : sscanf_int input z ≢ pos 0 = λ k. ne (sym (sscanf_int_again input choice) ∙ k) in
        edit_loop_ended f c' input z r empty ne' ∙ sym (edit_loop_ended g c' input z r empty ne'))
edit_loop_fuel (suc f) (suc g) c input choice (b ∷ s) h k =
    let line : Bytes × Bytes = fgets 10 input (b ∷ s) in
    let z : ℤ = sscanf_int line.0 choice in
    round_same z (edit_field z c line.1) (λ z c r. edit_loop f c line.0 z r)
      (λ z c r. edit_loop g c line.0 z r)
      (λ c' r e ne.
        let l = edit_field-Shorter z c line.1 c' r e in
        let t = fgets_takes input b s in
        edit_loop_fuel f g c' line.0 z r (omega arith) (omega arith))
