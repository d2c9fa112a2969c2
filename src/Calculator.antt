-- ===== src/Calculator.antt =====
-- module2/6_3: the calculator that loads its operations, calculator.c and main.c. The type `D` is `double`; the
-- dynamic loader, the directory and the arithmetic are arguments.
pub mod Plugins
pub mod Menu
mod Examples
use eltex_summer.Base.{
  ℕ, zero, suc, ◌+◌, ◌-◌, Bool, true, false, ◌&&◌, Option, none, some, List, [], ◌∷◌, ◌++◌, Bytes,
  codes, cut_at, str_eq, starts_with, length, drop, get_elem?, ltb, leb, ◌==◌, if◌then◌else◌, ◌>>=◌,
}
use eltex_summer.Base.Int.{ℤ, pos, negsuc}
use eltex_summer.Contacts.Input.{fgets, sscanf_int}

abbrev pub lib_dir : Bytes
lib_dir = codes "./plugins/"

abbrev pub max_commands : ℕ
max_commands = 20

-- What stands behind the last `stop`: one byte behind the result of `strrchr`
unfoldable pub last_part : ℕ → Bytes → Option Bytes
last_part stop [] = none
last_part stop (c ∷ s) = elim (last_part stop s) [
  | some t ↦ some t
  | none ↦ if c == stop then some s else none
]

unfoldable pub library_name : Bytes → Bytes
unfolding last_part
library_name lib_path = elim (last_part b'/' lib_path) [ none ↦ lib_path | some start ↦ start ]

-- `func_name`
unfoldable pub func_name : Bytes → Bytes
unfolding library_name
func_name lib_path =
    let start = library_name lib_path in
    cut_at b'.' (if starts_with start (codes "lib") then drop 3 start else start)

unfoldable pub capital : Bytes → Bytes
capital [] = []
capital (c ∷ s) = if leb b'a' c && leb c b'z' then (c - b'a' + b'A') ∷ s else c ∷ s

unfoldable pub command_name : Bytes → Bytes
command_name func =
    if str_eq func (codes "add")
    then codes "Add"
    else if str_eq func (codes "subtract")
    then codes "Subtract"
    else if str_eq func (codes "multiply")
    then codes "Multiply"
    else if str_eq func (codes "divide")
    then codes "Divide"
    else if str_eq func (codes "power")
    then codes "Power"
    else capital func

-- `func_name[0]`, the zero byte of an empty name
unfoldable pub first_char : Bytes → ℕ
first_char [] = 0
first_char (c ∷ s) = c

unfoldable pub command_symbol : Bytes → ℕ
command_symbol func =
    if str_eq func (codes "add")
    then b'+'
    else if str_eq func (codes "subtract")
    then b'-'
    else if str_eq func (codes "multiply")
    then b'*'
    else if str_eq func (codes "divide")
    then b'/'
    else if str_eq func (codes "power")
    then b'^'
    else first_char func

unfoldable pub is_so : Option Bytes → Bool
is_so none = false
is_so (some ext) = str_eq ext (codes "so")

-- The two tests of an entry of the directory
unfoldable pub is_plugin : Bytes → Bool
unfolding last_part is_so
is_plugin name = starts_with name (codes "lib") && is_so (last_part b'.' name)

pub record Command (D : Type 0) : Type 0 where
  pub name : Bytes
  pub symbol : ℕ
  pub func : D → D → D

-- Whether `dlopen` opens a library, and what `dlsym` finds in it
pub record Libraries (D : Type 0) : Type 0 where
  pub opens : Bytes → Bool
  pub symbol_of : Bytes → Bytes → Option (D → D → D)

-- `overflow`: a name does not fit into its array.
pub data Loaded (D : Type 0) : Type 0 where
  refused overflow : Loaded D
  loaded : Command D → Loaded D

-- The first number was read or not, and so on: what `scanf` leaves in `a` and `b`
pub data Output (D : Type 0) : Type 0 where
  goodbye invalid : Output D
  computed : D → ℕ → D → Option D → Output D

module _ {D : Type 0} where
  -- From `dlsym` on; the name has room for 19 bytes.
  unfoldable pub fill_command : Bytes → Option (D → D → D) → Loaded D
  fill_command func none = Loaded.refused
  fill_command func (some f) =
      let name = command_name func in
      if ltb 19 (length name)
      then Loaded.overflow
      else Loaded.loaded (record { name = name; symbol = command_symbol func; func = f })

  -- `func_name` has room for 49 bytes.
  unfoldable pub load_library : Libraries D → Bytes → Loaded D
  load_library libs lib_path =
      let func = func_name lib_path in
      if libs.opens lib_path
      then (if ltb 49 (length func)
          then Loaded.overflow
          else fill_command func (libs.symbol_of lib_path func))
      else Loaded.refused

  -- The next entry of the array, which has room for 20. `none` is a write outside of an array.
  unfoldable pub add_loaded : Loaded D → List (Command D) → Option (List (Command D))
  add_loaded refused commands = some commands
  add_loaded overflow commands = none
  add_loaded (loaded c) commands =
      if ltb (length commands) max_commands then some (commands ++ c ∷ []) else none

  -- `lib_path` has room for 255 bytes.
  unfoldable pub load_entry : Libraries D → Bytes → List (Command D) → Option (List (Command D))
  load_entry libs name commands =
      if is_plugin name
      then (if ltb 255 (length (lib_dir ++ name))
          then none
          else add_loaded (load_library libs (lib_dir ++ name)) commands)
      else some commands

  unfoldable pub load_entries :
      Libraries D → List Bytes → List (Command D) → Option (List (Command D))
  load_entries libs [] commands = some commands
  load_entries libs (name ∷ names) commands =
      load_entry libs name commands >>= λ more. load_entries libs names more

  -- The entries that `readdir` gives; `none`: `malloc` or `opendir` failed.
  unfoldable pub load_commands : Libraries D → Option (List Bytes) → Option (List (Command D))
  load_commands libs none = some []
  load_commands libs (some names) = load_entries libs names []

-- `double`, as far as the program itself computes with it
pub record Arith (D : Type 0) : Type 0 where
  pub is_zero : D → Bool
  pub scan_double : Bytes → Option D × Bytes

module _ {D : Type 0} where
  unfoldable pub or_old : Option D → D → D
  or_old none old = old
  or_old (some d) old = d

  -- `none` at the choice 0; otherwise the number of the command, counted from 0, if it is in range
  unfoldable pub chosen_command : List (Command D) → ℤ → Option (Option (Command D))
  chosen_command commands (negsuc n) = some none
  chosen_command commands (pos zero) = none
  chosen_command commands (pos (suc n)) = some (get_elem? commands n)

-- `while (getchar() != '\n');`. `none`: it goes on for ever at the end of the input.
unfoldable pub skip_line : Bytes → Option Bytes
skip_line [] = none
skip_line (c ∷ s) = if c == 10 then some s else skip_line s

-- What the loop keeps from one round to the next
pub record Round (D : Type 0) : Type 0 where
  pub input : Bytes
  pub choice : ℤ
  pub a : D
  pub b : D
  pub stdin : Bytes

module _ {D : Type 0} (ar : Arith D) where
  open ar use {is_zero, scan_double}

  -- The result, or `none` with `*error = 1`
  unfoldable pub execute_command : Command D → D → D → Option D
  execute_command cmd a b = if (cmd.symbol == b'/') && is_zero b then none else some (cmd.func a b)

  -- The two numbers, which stay as they were where no number stands, and what is left of the input
  unfoldable pub read_numbers : D → D → Bytes → Option (D × D × Bytes)
  read_numbers a b stdin =
      let (x, s) = scan_double stdin in
      let (y, s') = scan_double s in skip_line s' >>= λ rest. some (or_old x a, or_old y b, rest)

  -- The rest of a round. The outer `none`: it never ends. The inner one: the loop is left.
  unfoldable pub do_command :
      Option (Option (Command D)) → Round D → Option (Output D × Option (Round D))
  do_command none r = some (Output.goodbye, none)
  do_command (some none) r = some (Output.invalid, some r)
  do_command (some (some c)) r = read_numbers r.a r.b r.stdin >>= λ (a, b, rest). some (
    Output.computed a c.symbol b (execute_command c a b),
    some (record r { a = a; b = b; stdin = rest }),
  )

  unfoldable pub menu_round : List (Command D) → Round D → Option (Output D × Option (Round D))
  menu_round commands r =
      let (input, s) = fgets 10 r.input r.stdin in
      let choice = sscanf_int input r.choice in
      do_command (chosen_command commands choice)
        (record r { input = input; choice = choice; stdin = s })

  -- `do … while`, with fuel for the rounds; `none`: no end within it
  unfoldable pub calculator_loop : ℕ → List (Command D) → Round D → Option (List (Output D))
  calculator_loop zero commands r = none
  calculator_loop (suc fuel) commands r = menu_round commands r >>= λ (out, next). elim next [
    | none ↦ some (out ∷ [])
    | some r' ↦ calculator_loop fuel commands r' >>= λ outs. some (out ∷ outs)
  ]

  -- `main`: without a command it ends at once.
  unfoldable pub calculator :
      Libraries D → Option (List Bytes) → ℕ → Round D → Option (List (Output D))
  calculator libs entries fuel r = load_commands libs entries >>= λ commands. elim commands [
    | [] ↦ some []
    | c ∷ cs ↦ calculator_loop fuel (c ∷ cs) r
  ]
