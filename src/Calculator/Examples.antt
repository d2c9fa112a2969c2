-- ===== src/Calculator/Examples.antt =====
-- A directory with one library, and a calculation; numbers stand for `double`.
use eltex_summer.Base.{
  ℕ, ◌+◌, ◌≡◌, refl, true, Option, none, some, List, [], ◌∷◌, ◌++◌, Bytes, codes, cut_at, length,
  leb, ◌==◌, if◌then◌else◌, arith,
}
use eltex_summer.Base.Int.{pos}
use eltex_summer.Base.Scan.{scan_signed, scan_natural, scan_digits, is_digit, is_space, skip_spaces}
use eltex_summer.Calculator.{
  max_commands, is_plugin, capital, command_symbol, Command, Libraries, Loaded, load_library,
  load_commands, computed, Arith, Round, menu_round, calculator_loop,
}
use eltex_summer.Contacts.Input.{sscanf_int}
use eltex_summer.Calculator.Plugins.{
  IsShort, operation, all_found, load_commands-all_found, load_library-lib,
}
use eltex_summer.Calculator.Menu.{Computes, menu_round-command, calculator_loop_at_end}

abbrev add_library : Libraries ℕ
add_library = record { opens = λ p. true; symbol_of = λ p op. some (λ a b. a + b) }

abbrev names : List Bytes
names = codes "libadd.so" ∷ (codes "README" ∷ [])

names-IsShort : IsShort (codes "libadd.so")
unfolding operation cut_at
names-IsShort = record { no_slash = omega arith; path_fits = omega arith; name_fits = omega arith }

readme-IsShort : IsShort (codes "README")
unfolding operation cut_at
readme-IsShort = record { no_slash = omega arith; path_fits = omega arith; name_fits = omega arith }

load_commands-all_found_example : load_commands add_library (some names) ≡ (
    if leb (length (all_found add_library names)) max_commands
    then some (all_found add_library names)
    else none)
load_commands-all_found_example =
    load_commands-all_found add_library names (names-IsShort, (readme-IsShort, tt))

load_library-lib_example :
    (is_plugin (codes "libadd.so") ≡ true)
    × (load_library add_library (codes "./plugins/libadd.so")
        ≡ Loaded.loaded (record {
          name = capital (codes "add");
          symbol = command_symbol (codes "add");
          func = λ a b. a + b;
        }))
load_library-lib_example =
    load_library-lib add_library (codes "add") (λ a b. a + b) (omega arith) (omega arith)
      (omega arith) refl refl

-- Reads one digit.
abbrev scan_digit : Bytes → Option ℕ × Bytes
scan_digit [] = (none, [])
scan_digit (c ∷ s) = (some c, s)

abbrev digits : Arith ℕ
digits = record { is_zero = λ n. n == 0; scan_double = scan_digit }

abbrev plus : Command ℕ
plus = record { name = codes "Add"; symbol = b'+'; func = λ a b. a + b }

abbrev typed : Round ℕ
typed = record {
  input = [];
  choice = pos 0;
  a = 0;
  b = 0;
  stdin = codes "1" ++ 10 ∷ (codes "23" ++ 10 ∷ []);
}

menu_round-command_example :
    (result : Option ℕ) × (next : Round ℕ) × (menu_round digits (plus ∷ []) typed
      ≡ some (computed b'2' b'+' b'3' result, some next))
    × (next.stdin ≡ [])
    × Computes digits (plus ∷ []) plus b'2' b'3' result
unfolding scan_signed scan_natural scan_digits is_digit is_space skip_spaces
menu_round-command_example =
    menu_round-command digits (plus ∷ []) typed (codes "1") (codes "23" ++ 10 ∷ [])
      (codes "3" ++ 10 ∷ []) [] [] 0 plus b'2' b'3' (omega arith) (omega arith) (omega arith) refl
      refl refl refl refl tt

abbrev ended : Round ℕ
ended = record { input = codes "1" ++ 10 ∷ []; choice = pos 1; a = 0; b = 0; stdin = [] }

calculator_loop_at_end_example : calculator_loop digits 1000 (plus ∷ []) ended ≡ none
unfolding sscanf_int scan_signed scan_natural scan_digits is_digit is_space skip_spaces
calculator_loop_at_end_example =
    calculator_loop_at_end digits (plus ∷ []) 1000 ended refl (λ e. cc) refl
