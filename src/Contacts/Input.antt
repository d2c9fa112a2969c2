-- ===== src/Contacts/Input.antt =====
-- How contacts.c reads lines from the terminal. The terminal is the list of the bytes still to come;
-- a buffer is the C string in it.
pub mod Lines
use eltex_summer.Base.{
  ℕ, zero, suc, ◌+◌, ◌-◌, ◌*◌, Bool, true, false, ◌||◌, ◌&&◌, Option, none, some, List, [], ◌∷◌,
  Bytes, c_str, cut_at, length, leb, ◌==◌, if◌then◌else◌, ◌>>=◌,
}
use eltex_summer.Base.Int.{ℤ}
use eltex_summer.Base.Scan.{scan_signed}

-- At most `limit` bytes, up to and with the first newline, and what is left.
unfoldable pub read_line : ℕ → Bytes → Bytes × Bytes
read_line zero stdin = ([], stdin)
read_line (suc limit) [] = ([], [])
read_line (suc limit) (c ∷ stdin) =
    let (line, rest) = read_line limit stdin in
    if c == 10 then (10 ∷ [], stdin) else (c ∷ line, rest)

-- `fgets(buffer, size, stdin)`: at the end of the input the buffer stays as it was.
unfoldable pub fgets : ℕ → Bytes → Bytes → Bytes × Bytes
unfolding read_line
fgets size buffer [] = (buffer, [])
fgets size buffer (c ∷ stdin) =
    let (line, rest) = read_line (size - 1) (c ∷ stdin) in (c_str line, rest)

-- `removeN`
unfoldable pub remove_n : Bytes → Bytes
remove_n [] = []
remove_n (c ∷ str) = if c == 10 then [] else c ∷ remove_n str

-- `fgets(field, size, stdin); removeN(field);`
unfoldable pub read_field : ℕ → Bytes → Bytes → Bytes × Bytes
unfolding fgets remove_n
read_field size field stdin = let (line, rest) = fgets size field stdin in (remove_n line, rest)

-- The loop that asks until the field is not empty. `none`: it goes on for ever, or no fuel is left.
unfoldable pub read_required : ℕ → ℕ → Bytes → Bytes → Option (Bytes × Bytes)
read_required zero size field stdin = none
read_required (suc fuel) size field stdin =
    let (line, rest) = read_field size field stdin in
    elim line [ [] ↦ read_required fuel size [] rest | c ∷ cs ↦ some (c ∷ cs, rest) ]

-- Each round but those at the end of the input takes at least one byte.
abbrev pub rounds : Bytes → ℕ
rounds stdin = suc (suc (length stdin))

-- `sscanf(input, "%d", &choice)`: without a number `choice` stays as it was. A buffer of ten bytes
-- holds nine digits at most, so no number overflows.
unfoldable pub sscanf_int : Bytes → ℤ → ℤ
unfolding scan_signed
sscanf_int input choice = elim (scan_signed input) [ none ↦ choice | some n ↦ n ]
