-- ===== src/Taxi/Table.antt =====
-- The table of the dispatcher, seen as the set of the processes in it.
use mathlib.Core.List.{append_assoc, append-nil}
use eltex_summer.Base.{
  ◌+◌, ◌≡◌, refl, inl, inr, ◌∙◌, true, false, not, ◌||◌, ◌&&◌, some, List, [], ◌∷◌, ◌++◌, get_elem?,
  length, length-append, Bool-cases, Option-cases, arith,
}
use eltex_summer.Base.Int.{ℤ, int_eq, int_eq_iff}
use eltex_summer.Taxi.{
  DriverInfo, World, Report, dead, enter_driver, create_driver, find_driver, remove_driver,
  get_from, get_drivers,
}

find_driver-enter_driver :
    (drivers drivers' : List DriverInfo) (pid q : ℤ)
    → enter_driver drivers pid ≡ some drivers'
    → find_driver drivers' q ≡ int_eq pid q || find_driver drivers q
unfolding enter_driver find_driver
find_driver-enter_driver [] drivers' pid q h = cc
find_driver-enter_driver (d ∷ drivers) drivers' pid q h = elim (Bool-cases d.active) [
  | inl used ↦ elim (Option-cases (enter_driver drivers pid)) [
    | inl full ↦ ground arith
    | inr (ds, e) ↦
        let k : d ∷ ds ≡ drivers' = ground arith in
        let r = find_driver-enter_driver drivers ds pid q e in
        rw (← k, find_driver, r) (ground arith)
  ]
  | inr free ↦
      let k : record { pid = pid; active = true } ∷ drivers ≡ drivers' = ground arith in
      rw (← k, find_driver, free) (ground arith)
]

-- Unless the table is full, a new driver is in it afterwards and nobody else is touched.
pub find_driver-create_driver :
    (drivers drivers' : List DriverInfo) (pid q : ℤ)
    → enter_driver drivers pid ≡ some drivers'
    → find_driver (create_driver (some pid) drivers) q ≡ int_eq pid q || find_driver drivers q
unfolding create_driver
find_driver-create_driver drivers drivers' pid q h =
    rw (h, create_driver) (find_driver-enter_driver drivers drivers' pid q h)

find_driver-append :
    (xs ys : List DriverInfo) (q : ℤ)
    → find_driver (xs ++ ys) q ≡ find_driver xs q || find_driver ys q
unfolding find_driver
find_driver-append [] ys q = refl
find_driver-append (x ∷ xs) ys q = ground (arith, find_driver-append xs ys q)

-- The first active entry of the process is the one behind `xs`.
remove_driver-middle :
    (xs ys : List DriverInfo) (d : DriverInfo)
    → find_driver xs d.pid ≡ false
    → d.active ≡ true
    → remove_driver (xs ++ d ∷ ys) d.pid ≡ xs ++ record d { active = false } ∷ ys
unfolding remove_driver find_driver
remove_driver-middle [] ys d h a = ground (arith, int_eq_iff d.pid d.pid)
remove_driver-middle (x ∷ xs) ys d h a = ground (arith, remove_driver-middle xs ys d)

get_elem?-middle :
    (xs : List DriverInfo) (y : DriverInfo) (ys : List DriverInfo)
    → get_elem? (xs ++ y ∷ ys) (length xs) ≡ some y
get_elem?-middle [] y ys = refl
get_elem?-middle (x ∷ xs) y ys = get_elem?-middle xs y ys

-- The drivers in the table live.
abbrev AllAlive : World → List DriverInfo → Type 0
AllAlive world drivers = (q : ℤ) → find_driver drivers q ≡ true → world.alive q ≡ true

alive_same : (world : World) (p q : ℤ) → int_eq p q ≡ true → world.alive p ≡ world.alive q
alive_same world p q h = rw ((int_eq_iff p q).0 h)

AllAlive-snoc :
    (world : World) (xs : List DriverInfo) (d : DriverInfo)
    → AllAlive world xs
    → (d.active && not (world.alive d.pid)) ≡ false
    → AllAlive world (xs ++ d ∷ [])
unfolding find_driver
AllAlive-snoc world xs d h e q k =
    ground (arith, h q, find_driver-append xs (d ∷ []) q, alive_same world d.pid q)

-- The step to the list one entry shorter.
shift :
    (world : World) (xs ys : List DriverInfo) (d : DriverInfo) (reports : List (ℤ × Report)) (q : ℤ)
    → find_driver
        (get_from world (length ys) (length (xs ++ d ∷ [])) ((xs ++ d ∷ []) ++ ys) reports).0
        q
      ≡ find_driver (xs ++ d ∷ []) q || (find_driver ys q && world.alive q)
    → find_driver (get_from world (length ys) (length xs + 1) (xs ++ d ∷ ys) reports).0 q
      ≡ find_driver xs q || (d.active && int_eq d.pid q) || (find_driver ys q && world.alive q)
unfolding find_driver
shift world xs ys d reports q h =
    let next : length (xs ++ d ∷ []) ≡ length xs + 1 = length-append xs (d ∷ []) in
    let moved : (xs ++ d ∷ []) ++ ys ≡ xs ++ d ∷ ys = append_assoc xs (d ∷ []) ys in
    rw (next, moved) at h ∙ rw (find_driver-append xs (d ∷ []) q) (ground arith)

find_driver-get_from :
    (world : World) (xs ys : List DriverInfo) (reports : List (ℤ × Report)) (q : ℤ)
    → AllAlive world xs
    → find_driver (get_from world (length ys) (length xs) (xs ++ ys) reports).0 q
      ≡ find_driver xs q || (find_driver ys q && world.alive q)
unfolding get_from find_driver
find_driver-get_from world xs [] reports q h = rw (append-nil xs) (ground arith)
find_driver-get_from world xs (d ∷ ys) reports q h =
    elim (Bool-cases (d.active && not (world.alive d.pid))) [
      | inl gone ↦
          let off : DriverInfo = record d { active = false } in
          let unseen : find_driver xs d.pid ≡ false = ground (arith, h d.pid) in
          let r =
            find_driver-get_from world (xs ++ off ∷ []) ys (reports ++ (d.pid, dead) ∷ []) q
              (AllAlive-snoc world xs off h refl) in
          rw
            (
              get_elem?-middle xs d ys,
              get_from,
              gone,
              remove_driver-middle xs ys d unseen (ground arith),
            )
            (shift world xs ys off (reports ++ (d.pid, dead) ∷ []) q r
              ∙ ground (arith, alive_same world d.pid q))
      | inr stays ↦
          let r = λ (l : List (ℤ × Report)).
            find_driver-get_from world (xs ++ d ∷ []) ys l q (AllAlive-snoc world xs d h stays) in
          rw (get_elem?-middle xs d ys, get_from, stays)
            (shift world xs ys d _ q (r _) ∙ ground (arith, alive_same world d.pid q))
    ]

-- After `get_drivers` exactly those drivers are in the table that were in it and live.
pub find_driver-get_drivers :
    (world : World) (drivers : List DriverInfo) (q : ℤ)
    → find_driver (get_drivers world drivers).0 q ≡ find_driver drivers q && world.alive q
unfolding get_drivers find_driver
find_driver-get_drivers world drivers q = find_driver-get_from world [] drivers [] q (λ p e. cc)
