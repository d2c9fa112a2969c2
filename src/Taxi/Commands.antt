-- ===== src/Taxi/Commands.antt =====
-- The command lines of taxi.c.
use eltex_summer.Base.{
  ℕ, Bool, true, false, not, ◌||◌, Option, List, [], ◌∷◌, Bytes, codes, c_str, str_eq, ◌==◌,
  if◌then◌else◌,
}
use eltex_summer.Base.Int.{ℤ}
use eltex_summer.Base.Scan.{atoi_int}
use eltex_summer.Taxi.{
  DriverInfo, World, create_driver, do_send_task, do_get_status, get_drivers, shutdown_all,
}

-- The delimiters of `strtok`.
unfoldable pub is_blank : ℕ → Bool
is_blank c = (c == b' ') || (c == 9) || (c == 10)

-- `c` in front of the words of `rest`, of which the first begins at once if `joined`.
unfoldable pub add_byte : ℕ → Bool → List Bytes → List Bytes
add_byte c joined [] = (c ∷ []) ∷ []
add_byte c true (w ∷ words) = (c ∷ w) ∷ words
add_byte c false (w ∷ words) = (c ∷ []) ∷ w ∷ words

unfoldable pub begins_word : Bytes → Bool
begins_word [] = false
begins_word (c ∷ s) = not (is_blank c)

-- The results of the calls of `strtok` on a line.
unfoldable pub words : Bytes → List Bytes
words [] = []
words (c ∷ s) = let rest = words s in if is_blank c then rest else add_byte c (begins_word s) rest

-- The table and `running` after a command. `forked` is the process that `fork` would give.
unfoldable pub run_words : World → Option ℤ → List Bytes → List DriverInfo → List DriverInfo × Bool
run_words world forked [] drivers = (drivers, true)
run_words world forked (cmd ∷ arguments) drivers =
    if str_eq cmd (codes "create_driver")
    then (create_driver forked drivers, true)
    else if str_eq cmd (codes "send_task")
    then (send_task arguments, true)
    else if str_eq cmd (codes "get_status")
    then (get_status arguments, true)
    else if str_eq cmd (codes "get_drivers")
    then ((get_drivers world drivers).0, true)
    else (drivers, not (str_eq cmd (codes "exit") || str_eq cmd (codes "quit")))
  where
    send_task : List Bytes → List DriverInfo
    send_task [] = drivers
    send_task (a1 ∷ []) = drivers
    send_task (a1 ∷ a2 ∷ rest) = (do_send_task world (atoi_int a1) (atoi_int a2) drivers).0

    get_status : List Bytes → List DriverInfo
    get_status [] = drivers
    get_status (a1 ∷ rest) = (do_get_status world (atoi_int a1) drivers).0

unfoldable pub run_line : World → Option ℤ → Bytes → List DriverInfo → List DriverInfo × Bool
run_line world forked line drivers = run_words world forked (words (c_str line)) drivers

-- `main` on the lines that are typed; each comes with the world at that time and the next process.
unfoldable pub dispatch :
    List (Bytes × World × Option ℤ) → List DriverInfo → List DriverInfo × List ℤ
dispatch [] drivers = shutdown_all drivers
dispatch ((line, world, forked) ∷ lines) drivers =
    let (drivers', running) = run_line world forked line drivers in
    elim running [ true ↦ dispatch lines drivers' | false ↦ shutdown_all drivers' ]
