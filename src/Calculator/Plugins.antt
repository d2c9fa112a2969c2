-- ===== src/Calculator/Plugins.antt =====
-- Which commands are loaded from the names in the directory.
use eltex_summer.Base.{
  ℕ, suc, ◌+◌, ◌≤◌, ◌≡◌, ◌≢◌, refl, sym, ap, ◌∙◌, inl, inr, true, false, ◌&&◌, Option, none, some,
  List, [], ◌∷◌, ◌++◌, Bytes, codes, cut_at, str_eq, str_eq_iff, starts_with, Without, All,
  All-append, length, length-append, drop, ltb, leb, if◌then◌else◌, ◌>>=◌, Bool-cases, arith,
}
use mathlib.Core.List.{append_assoc, append-nil}
use eltex_summer.Calculator.{
  lib_dir, max_commands, last_part, library_name, func_name, capital, command_name, command_symbol,
  is_so, is_plugin, Command, Libraries, Loaded, fill_command, load_library, add_loaded, load_entry,
  load_entries, load_commands,
}

last_part-none : (stop : ℕ) (s : Bytes) → Without stop s → last_part stop s ≡ none
unfolding last_part
last_part-none stop [] h = refl
last_part-none stop (c ∷ s) h = rw (last_part-none stop s h.1, last_part) (ground (arith, h.0))

pub last_part-append :
    (stop : ℕ) (s t : Bytes) → Without stop t → last_part stop (s ++ stop ∷ t) ≡ some t
unfolding last_part
last_part-append stop [] t h = rw (last_part-none stop t h, last_part) (ground arith)
last_part-append stop (c ∷ s) t h = rw (last_part-append stop s t h, last_part) refl

library_name-lib_dir : (name : Bytes) → Without b'/' name → library_name (lib_dir ++ name) ≡ name
unfolding library_name
library_name-lib_dir name h =
    ap (λ o. elim o as (λ x. Bytes) [ none ↦ lib_dir ++ name | some start ↦ start ])
      (last_part-append b'/' (codes "./plugins") name h)

-- The name of the function that a library with this name holds
unfoldable pub operation : Bytes → Bytes
operation name = cut_at b'.' (drop 3 name)

func_name-lib_dir :
    (name : Bytes)
    → Without b'/' name
    → is_plugin name ≡ true
    → func_name (lib_dir ++ name) ≡ operation name
unfolding func_name is_plugin operation
func_name-lib_dir name h p =
    let lib : starts_with name (codes "lib") ≡ true = ground arith in
    rw (library_name-lib_dir name h, lib) refl

length-capital : (s : Bytes) → length (capital s) ≡ length s
unfolding capital
length-capital [] = refl
length-capital (c ∷ s) = ground arith

named :
    (s known name : Bytes) (rest : Bytes)
    → capital known ≡ name
    → rest ≡ capital s
    → (if str_eq s known then name else rest) ≡ capital s
named s known name rest e f = elim (Bool-cases (str_eq s known)) [
  | inl y ↦ rw (y) (sym e ∙ ap capital (sym ((str_eq_iff s known).0 y)))
  | inr n ↦ rw (n) f
]

-- The names in the table are those that the rule for other functions gives too.
command_name-capital : (s : Bytes) → command_name s ≡ capital s
unfolding command_name capital
command_name-capital s = named s (codes "add") _ _ refl (
    named s (codes "subtract") _ _ refl (
      named s (codes "multiply") _ _ refl
        (named s (codes "divide") _ _ refl (named s (codes "power") _ _ refl refl))))

-- The name of an entry of the directory, with a function name that fits
pub record IsShort (name : Bytes) : Type 0 where
  pub no_slash : Without b'/' name
  pub path_fits : length name ≤ 245
  pub name_fits : length (operation name) ≤ 19

module _ {D : Type 0} (libs : Libraries D) where
  unfoldable pub command_of : Bytes → Option (D → D → D) → Option (Command D)
  command_of op none = none
  command_of op (some f) = some (record { name = capital op; symbol = command_symbol op; func = f })

  -- The command that an entry of the directory stands for, if it is a library that opens and holds a
  -- function with its name
  unfoldable pub found : Bytes → Option (Command D)
  found name =
      if is_plugin name && libs.opens (lib_dir ++ name)
      then command_of (operation name) (libs.symbol_of (lib_dir ++ name) (operation name))
      else none

  abbrev pub add_found : Option (Command D) → List (Command D) → List (Command D)
  add_found none commands = commands
  add_found (some c) commands = c ∷ commands

  unfoldable pub all_found : List Bytes → List (Command D)
  all_found [] = []
  all_found (name ∷ names) = add_found (found name) (all_found names)

  abbrev pub as_loaded : Option (Command D) → Loaded D
  as_loaded none = Loaded.refused
  as_loaded (some c) = Loaded.loaded c

  fill-command_of :
      (op : Bytes) (f : Option (D → D → D))
      → length op ≤ 19
      → fill_command op f ≡ as_loaded (command_of op f)
  unfolding fill_command command_of
  fill-command_of op none h = refl
  fill-command_of op (some f) h =
      let e = command_name-capital op in
      let short : ltb 19 (length (capital op)) ≡ false = ground (arith, length-capital op) in
      rw (e, short) refl

  found_library :
      (name op : Bytes) (f : D → D → D)
      → is_plugin name ≡ true
      → operation name ≡ op
      → libs.opens (lib_dir ++ name) ≡ true
      → libs.symbol_of (lib_dir ++ name) op ≡ some f
      → found name ≡ some (record { name = capital op; symbol = command_symbol op; func = f })
  unfolding found command_of
  found_library name op f p e o s = simp (p, o, e, s) refl

  load_library-found :
      (name : Bytes)
      → IsShort name
      → is_plugin name ≡ true
      → load_library libs (lib_dir ++ name) ≡ as_loaded (found name)
  unfolding load_library found
  load_library-found name s p =
      let op : Bytes = operation name in
      let e = func_name-lib_dir name s.no_slash p in
      let fits : ltb 49 (length op) ≡ false = ground (arith, s.name_fits) in
      elim (Bool-cases (libs.opens (lib_dir ++ name))) [
        | inl o ↦
            simp (e, o, p, fits)
              (fill-command_of op (libs.symbol_of (lib_dir ++ name) op) s.name_fits)
        | inr o ↦ simp (e, o, p) refl
      ]

  -- The commands so far and one more, if there is room
  unfoldable pub add_one : Option (Command D) → List (Command D) → Option (List (Command D))
  add_one none commands = some commands
  add_one (some c) commands =
      if ltb (length commands) max_commands then some (commands ++ c ∷ []) else none

  add_loaded-as_loaded :
      (f : Option (Command D)) (commands : List (Command D))
      → add_loaded (as_loaded f) commands ≡ add_one f commands
  unfolding add_loaded add_one
  add_loaded-as_loaded none commands = refl
  add_loaded-as_loaded (some c) commands = refl

  load_entry-found :
      (name : Bytes) (commands : List (Command D))
      → IsShort name
      → load_entry libs name commands ≡ add_one (found name) commands
  unfolding load_entry add_one
  load_entry-found name commands s = elim (Bool-cases (is_plugin name)) [
    | inl p ↦
        let fits : ltb 255 (length (lib_dir ++ name)) ≡ false = ground (arith, s.path_fits) in
        simp (p, fits, load_library-found name s p) (add_loaded-as_loaded (found name) commands)
    | inr n ↦ simp (n) (
        let nothing : found name ≡ none = unfold found in rw (n) refl in
        ap (λ f. add_one f commands) (sym nothing))
  ]

  -- What is loaded in the end, as far as the array has room
  abbrev pub filled : List (Command D) → List (Command D) → Option (List (Command D))
  filled commands more =
      if leb (length commands + length more) max_commands then some (commands ++ more) else none

  add_one-filled :
      (names : List Bytes) (commands more : List (Command D)) (f : Option (Command D))
      → length commands ≤ max_commands
      → ((commands' : List (Command D))
          → length commands' ≤ max_commands
          → load_entries libs names commands' ≡ filled commands' more)
      → (add_one f commands >>= λ commands'. load_entries libs names commands')
        ≡ filled commands (add_found f more)
  unfolding add_one
  add_one-filled names commands more none l ih = ih commands l
  add_one-filled names commands more (some c) l ih =
      elim (Bool-cases (ltb (length commands) max_commands)) [
        | inl e ↦
            let n : length (commands ++ c ∷ []) ≡ length commands + 1 =
              length-append commands (c ∷ []) in
            let m : length (commands ++ c ∷ []) + length more
                ≡ length commands + suc (length more) =
              omega arith in
            let b : length (commands ++ c ∷ []) ≤ max_commands = ground arith in
            rw (e, add_one)
              (ih (commands ++ c ∷ []) b
                ∙ ap (λ k. if leb k max_commands then some ((commands ++ c ∷ []) ++ more) else none)
                    m
                ∙ ap
                    (λ cs.
                      if leb (length commands + suc (length more)) max_commands
                      then some cs
                      else none)
                    (append_assoc commands (c ∷ []) more))
        | inr e ↦
            let full : leb (length commands + suc (length more)) max_commands ≡ false =
              ground arith in
            rw (e, full) refl
      ]

  load_entries-filled :
      (names : List Bytes) (commands : List (Command D))
      → All IsShort names
      → length commands ≤ max_commands
      → load_entries libs names commands ≡ filled commands (all_found names)
  unfolding load_entries all_found
  load_entries-filled [] commands h l =
      let fits : leb (length commands + 0) max_commands ≡ true = ground arith in
      rw (fits) (ap some (sym (append-nil commands)))
  load_entries-filled (name ∷ names) commands h l = rw (load_entry-found name commands h.0) (
      add_one-filled names commands (all_found names) (found name) l
        (λ commands' k. load_entries-filled names commands' h.1 k))

  -- If all names in the directory are short, exactly the commands that its entries stand for are loaded, in
  -- their order, as long as they are at most 20; with more, the program writes behind its array.
  pub load_commands-all_found :
      (names : List Bytes)
      → All IsShort names
      → load_commands libs (some names)
        ≡ (if leb (length (all_found names)) max_commands then some (all_found names) else none)
  unfolding load_commands
  load_commands-all_found names h =
      load_entries-filled names [] h (omega arith)
      ∙ ap (λ k. if leb k max_commands then some (all_found names) else none) (omega arith)

last_dot : (s : Bytes) → is_so (last_part b'.' (s ++ codes ".so")) ≡ true
unfolding is_so str_eq
last_dot s = ap is_so (last_part-append b'.' s (codes "so") (omega arith, (omega arith, tt)))

cut_dot : (s t : Bytes) → Without b'.' s → cut_at b'.' (s ++ b'.' ∷ t) ≡ s
unfolding cut_at
cut_dot [] t h = refl
cut_dot (c ∷ s) t h = ground (arith, cut_dot s t h.1)

-- A library "lib<op>.so" that opens and holds the function <op> gives a command: its name is <op> with a capital
-- letter, its symbol that of the table, or else the first letter, and it computes with the function.
-- The name <op> has at most 19 bytes and neither a dot nor a slash.
pub load_library-lib :
    {D : Type 0} (libs : Libraries D) (op : Bytes) (f : D → D → D)
    → Without b'.' op
    → Without b'/' op
    → length op ≤ 19
    → libs.opens (lib_dir ++ (codes "lib" ++ (op ++ codes ".so"))) ≡ true
    → libs.symbol_of (lib_dir ++ (codes "lib" ++ (op ++ codes ".so"))) op ≡ some f
    → (is_plugin (codes "lib" ++ (op ++ codes ".so")) ≡ true)
      × (load_library libs (lib_dir ++ (codes "lib" ++ (op ++ codes ".so")))
          ≡ Loaded.loaded (record { name = capital op; symbol = command_symbol op; func = f }))
unfolding starts_with is_plugin operation
load_library-lib libs op f d n l o s =
    let name : Bytes = codes "lib" ++ (op ++ codes ".so") in
    let p : is_plugin name ≡ true = last_dot (codes "lib" ++ op) in
    let e : operation name ≡ op = cut_dot op (codes "so") d in
    let short : IsShort name = record {
      no_slash = (
        omega arith,
        (
          omega arith,
          (
            omega arith,
            All-append (λ c. c ≢ b'/') op (codes ".so") n
                (omega arith, (omega arith, (omega arith, tt))),
          ),
        ),
      );
      path_fits = omega (arith, length-append op (codes ".so"));
      name_fits = omega (arith, ap length e);
    } in
    (
      p,
      load_library-found libs name short p
          ∙ ap (as_loaded libs) (found_library libs name op f p e o s),
    )
