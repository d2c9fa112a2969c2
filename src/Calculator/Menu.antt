-- ===== src/Calculator/Menu.antt =====
-- A round of the menu.
use eltex_summer.Base.{
  ℕ, zero, suc, ◌≤◌, ◌≡◌, ◌≢◌, refl, sym, ◌∙◌, ◌⊎◌, inl, inr, true, false, Option, none, some, List,
  [], ◌∷◌, ◌++◌, Bytes, Without, length, get_elem?, ◌==◌, Bool-cases, Option-cases, arith,
}
use eltex_summer.Base.Int.{ℤ, pos, negsuc}
use eltex_summer.Base.Scan.{scan_signed}
use eltex_summer.Contacts.Input.{fgets, sscanf_int}
use eltex_summer.Contacts.Input.Lines.{fgets-newline}
use eltex_summer.Calculator.{
  Command, invalid, computed, Arith, or_old, skip_line, execute_command, read_numbers, Round,
  chosen_command, do_command, menu_round, calculator_loop,
}

skip_line-newline : (s rest : Bytes) → Without 10 s → skip_line (s ++ 10 ∷ rest) ≡ some rest
unfolding skip_line
skip_line-newline [] rest h = refl
skip_line-newline (c ∷ s) rest h = ground (arith, h.0, skip_line-newline s rest h.1)

sscanf_int-some :
    (line : Bytes) (old choice : ℤ) → scan_signed line ≡ some choice → sscanf_int line old ≡ choice
unfolding sscanf_int
sscanf_int-some line old choice s = rw (s, sscanf_int) refl

module _ {D : Type 0} (ar : Arith D) (commands : List (Command D)) where
  open ar use {is_zero, scan_double}

  -- What a round does with the line of the choice, in terms of the number in it
  typed_choice :
      (r : Round D) (line rest : Bytes) (choice : ℤ)
      → Without 10 line
      → Without 0 line
      → length line ≤ 8
      → r.stdin ≡ line ++ 10 ∷ rest
      → scan_signed (line ++ 10 ∷ []) ≡ some choice
      → menu_round ar commands r
        ≡ do_command ar
            (chosen_command commands choice)
            (record r { input = line ++ 10 ∷ []; choice = choice; stdin = rest })
  unfolding menu_round
  typed_choice r line rest choice h z l e s =
      rw
        (
          e,
          fgets-newline 10 r.input line rest h z (omega arith),
          sscanf_int-some (line ++ 10 ∷ []) r.choice choice s,
        )
        refl

  -- The function's result; or none, and then only if the symbol is '/' and the second number zero.
  pub data Computes (c : Command D) (a b : D) : Option D → Type 0 where
    by_function :
        (r : Option D)
        → r ≡ some (c.func a b)
        → (c.symbol ≢ b'/') ⊎ (is_zero b ≡ false)
        → Computes c a b r
    by_zero : (r : Option D) → r ≡ none → c.symbol ≡ b'/' → is_zero b ≡ true → Computes c a b r

  execute_command_lem : (c : Command D) (a b : D) → Computes c a b (execute_command ar c a b)
  unfolding execute_command
  execute_command_lem c a b = elim (Bool-cases (c.symbol == b'/')) [
    | inr n ↦ rw (n) (by_function _ refl (inl (ground arith)))
    | inl y ↦ elim (Bool-cases (is_zero b)) [
      | inl z ↦ rw (y, z) (by_zero _ refl (ground arith) z)
      | inr z ↦ rw (y, z) (by_function _ refl (inr z))
    ]
  ]

  read_numbers_lem :
      (old old' : D) (text text' behind rest : Bytes) (a b : D)
      → scan_double text ≡ (some a, text')
      → scan_double text' ≡ (some b, behind ++ 10 ∷ rest)
      → Without 10 behind
      → read_numbers ar old old' text ≡ some (a, b, rest)
  unfolding read_numbers or_old
  read_numbers_lem old old' text text' behind rest a b x y w =
      rw (x, y, skip_line-newline behind rest w) refl

  -- The user types the number of a command in a line of at most eight bytes, then two numbers and a newline. Then
  -- the round shows the numbers and the symbol of the command with the result of its function, or the
  -- error exactly if the symbol is '/' and the second number is zero, and goes on behind the newline.
  pub menu_round-command :
      (r : Round D) (line text text' behind rest : Bytes) (n : ℕ) (c : Command D) (a b : D)
      → Without 10 line
      → Without 0 line
      → length line ≤ 8
      → r.stdin ≡ line ++ 10 ∷ text
      → scan_signed (line ++ 10 ∷ []) ≡ some (pos (suc n))
      → get_elem? commands n ≡ some c
      → scan_double text ≡ (some a, text')
      → scan_double text' ≡ (some b, behind ++ 10 ∷ rest)
      → Without 10 behind
      → (result : Option D) × (next : Round D) × (menu_round ar commands r
          ≡ some (computed a c.symbol b result, some next))
        × (next.stdin ≡ rest)
        × Computes c a b result
  unfolding do_command chosen_command
  menu_round-command r line text text' behind rest n c a b h z l e s g x y w =
      let r' : Round D = record r { input = line ++ 10 ∷ []; choice = pos (suc n); stdin = text } in
      (
        execute_command ar c a b,
        record r' { a = a; b = b; stdin = rest },
        typed_choice r line text (pos (suc n)) h z l e s
            ∙ rw (g, read_numbers_lem r.a r.b text text' behind rest a b x y w) refl,
        refl,
        execute_command_lem c a b,
      )

  sscanf_int_again :
      (line : Bytes) (choice : ℤ)
      → sscanf_int line (sscanf_int line choice) ≡ sscanf_int line choice
  unfolding sscanf_int
  sscanf_int_again line choice = again (scan_signed line)
    where
      again :
          (o : Option ℤ)
          → elim o as (λ x. ℤ) [
            | none ↦ elim o as (λ x. ℤ) [ none ↦ choice | some n ↦ n ]
            | some n ↦ n
          ]
            ≡ elim o as (λ x. ℤ) [ none ↦ choice | some n ↦ n ]
      again none = refl
      again (some n) = refl

  do_command_at_end :
      (choice : ℤ) (r : Round D)
      → r.stdin ≡ []
      → choice ≢ pos 0
      → scan_double [] ≡ (none, [])
      → (do_command ar (chosen_command commands choice) r ≡ none)
        ⊎ (do_command ar (chosen_command commands choice) r ≡ some (invalid, some r))
  unfolding do_command chosen_command read_numbers skip_line
  do_command_at_end (negsuc n) r e ne s = inr refl
  do_command_at_end (pos zero) r e ne s = absurd (ne refl)
  do_command_at_end (pos (suc n)) r e ne s = elim (Option-cases (get_elem? commands n)) [
    | inl g ↦ inr (rw (g) refl)
    | inr (c, g) ↦ inl (simp (g, e, s) refl)
  ]

  at_end :
      (r : Round D)
      → r.stdin ≡ []
      → menu_round ar commands r
        ≡ do_command ar
            (chosen_command commands (sscanf_int r.input r.choice))
            (record r { choice = sscanf_int r.input r.choice; stdin = [] })
  unfolding menu_round fgets
  at_end r e = rw (e) refl

  -- When the input has ended and the last number typed was not 0, the loop never ends: no number of rounds is
  -- enough. `scanf` is taken to find no number at the end of the input.
  pub calculator_loop_at_end :
      (fuel : ℕ) (r : Round D)
      → r.stdin ≡ []
      → sscanf_int r.input r.choice ≢ pos 0
      → scan_double [] ≡ (none, [])
      → calculator_loop ar fuel commands r ≡ none
  unfolding calculator_loop
  calculator_loop_at_end zero r e ne s = refl
  calculator_loop_at_end (suc fuel) r e ne s =
      let choice : ℤ = sscanf_int r.input r.choice in
      let r' : Round D = record r { choice = choice; stdin = [] } in
      let round : menu_round ar commands r ≡ do_command ar (chosen_command commands choice) r' =
        at_end r e in
      let again : sscanf_int r.input choice ≢ pos 0 =
        λ z. ne (sym (sscanf_int_again r.input r.choice) ∙ z) in
      elim (do_command_at_end choice r' refl ne s) [
        | inl never ↦ rw (round, never) refl
        | inr same ↦ rw (round, same) (rw (calculator_loop_at_end fuel r' refl again s) refl)
      ]
