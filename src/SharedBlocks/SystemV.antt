-- ===== src/SharedBlocks/SystemV.antt =====
-- module3/04/ipc_utils.c and main.c: the set-up of the version with System V calls, where the segment and the
-- semaphore are known by numbers and stay until they are removed.
use eltex_summer.Base.{
  ℕ, zero, suc, ◌≡◌, inl, inr, Bool, true, false, not, ◌&&◌, Option, none, some, Bytes,
  if◌then◌else◌, is_some, Bool-cases, Option-cases, arith,
}
use eltex_summer.SharedBlocks.SetUp.{num_consumers, fork_consumers}

-- The globals, and whether the segment and the semaphore of the program stand in the system
pub record Segments : Type 0 where
  pub shmid : Option ℕ
  pub semid : Option ℕ
  pub attached : Bool
  pub segment_exists : Bool
  pub semaphore_exists : Bool

-- What the calls on the system give
pub record Calls : Type 0 where
  pub ftok : Bool
  pub shmget : Option ℕ
  pub shmat : Bool
  pub semget : Option ℕ
  pub setval : Bool
  pub fork_producer : Bool
  pub malloc : Bool
  pub fork_consumer : ℕ → Bool

-- The result is `true` for 0 and `false` for -1.
unfoldable pub attach : Option ℕ → Calls → Segments → Bool × Segments
attach none c s = (false, record s { shmid = none })
attach (some id) c s =
    if c.shmat
    then (true, record s { shmid = some id; attached = true; segment_exists = true })
    else (false, record s { shmid = none; segment_exists = false })

unfoldable pub init_shared_memory : Calls → Segments → Bool × Segments
unfolding attach
init_shared_memory c s = attach c.shmget c s

-- `if (shmid > 0)`
unfoldable pub remove_segment : Option ℕ → Segments → Segments
remove_segment none s = s
remove_segment (some zero) s = s
remove_segment (some (suc id)) s = record s { shmid = none; segment_exists = false }

unfoldable pub cleanup_shared_memory : Segments → Segments
unfolding remove_segment
cleanup_shared_memory s = remove_segment s.shmid (record s { attached = false })

-- A semaphore whose value could not be set is left as it is.
unfoldable pub get_semaphore : Option ℕ → Calls → Segments → Bool × Segments
get_semaphore none c s = (false, record s { semid = none })
get_semaphore (some id) c s = (c.setval, record s { semid = some id; semaphore_exists = true })

unfoldable pub init_semaphore : Calls → Segments → Bool × Segments
unfolding get_semaphore
init_semaphore c s = get_semaphore c.semget c s

-- `if (semid > 0)`
unfoldable pub remove_semaphore : Option ℕ → Segments → Segments
remove_semaphore none s = s
remove_semaphore (some zero) s = s
remove_semaphore (some (suc id)) s = record s { semid = none; semaphore_exists = false }

unfoldable pub cleanup_all_ipc : Segments → Segments
unfolding cleanup_shared_memory remove_semaphore
cleanup_all_ipc s = let s' = cleanup_shared_memory s in remove_semaphore s'.semid s'

-- From the start of the producer to the end of all children; the result is the exit code.
unfoldable pub start_processes : ℕ → Calls → Segments → ℕ × Segments
start_processes n c s =
    if c.fork_producer && (c.malloc && fork_consumers n 0 c.fork_consumer)
    then (0, cleanup_all_ipc s)
    else (1, cleanup_all_ipc s)

unfoldable pub set_up : ℕ → Calls → Segments → ℕ × Segments
set_up n c s =
    let (has_segment, s') = init_shared_memory c s in
    let (has_semaphore, s'') = init_semaphore c s' in
    if c.ftok
    then (if has_segment
        then (if has_semaphore then start_processes n c s'' else (1, cleanup_shared_memory s''))
        else (1, s'))
    else (1, s)

unfoldable pub main : Option Bytes → Calls → Segments → ℕ × Segments
main argument c s = elim (num_consumers argument) [ none ↦ (1, s) | some n ↦ set_up n c s ]

abbrev pub at_start : Segments
at_start = record {
  shmid = none;
  semid = none;
  attached = false;
  segment_exists = false;
  semaphore_exists = false;
}

abbrev pub is_zero : Option ℕ → Bool
is_zero none = false
is_zero (some zero) = true
is_zero (some (suc id)) = false

-- Whether a semaphore is never removed: its number is 0, or its value could not be set.
abbrev pub is_kept : Option ℕ → Bool → Bool
is_kept none setval = false
is_kept (some zero) setval = true
is_kept (some (suc id)) setval = not setval

-- Whether `main` gets as far as `init_semaphore`
abbrev pub attaches : Option Bytes → Calls → Bool
attaches argument c = is_some (num_consumers argument) && (c.ftok && (c.shmat && is_some c.shmget))

pub record Leaves (attached segment semaphore : Bool) (s : Segments) : Type 0 where
  pub segment_left : s.segment_exists ≡ (attached && segment)
  pub semaphore_left : s.semaphore_exists ≡ (attached && semaphore)
  pub detached : s.attached ≡ false

start_processes-Leaves :
    (n : ℕ) (c : Calls) (s : Segments) (a b d : Bool)
    → Leaves a b d (cleanup_all_ipc s)
    → Leaves a b d (start_processes n c s).1
unfolding start_processes
start_processes-Leaves n c s a b d h =
    elim (Bool-cases (c.fork_producer && (c.malloc && fork_consumers n 0 c.fork_consumer))) [
      | inl e ↦ rw (e) h
      | inr e ↦ rw (e) h
    ]

abbrev calls : Bool → Option ℕ → Bool → Option ℕ → Bool → Bool → Bool → (ℕ → Bool) → Calls
calls ftok shmget shmat semget setval fork_producer malloc fork_consumer = record {
  ftok = ftok;
  shmget = shmget;
  shmat = shmat;
  semget = semget;
  setval = setval;
  fork_producer = fork_producer;
  malloc = malloc;
  fork_consumer = fork_consumer;
}

module _ (n : ℕ) (p m : Bool) (forks : ℕ → Bool) where
  with_segment :
      (id : ℕ) (g : Option ℕ) (v : Bool)
      → Leaves true
          (is_zero (some id))
          (is_kept g v)
          (set_up n (calls true (some id) true g v p m forks) at_start).1
  unfolding set_up init_shared_memory init_semaphore cleanup_all_ipc
  with_segment zero none v = ground arith
  with_segment (suc id) none v = ground arith
  with_segment zero (some zero) false = ground arith
  with_segment (suc id) (some zero) false = ground arith
  with_segment zero (some (suc d)) false = ground arith
  with_segment (suc id) (some (suc d)) false = ground arith
  with_segment zero (some zero) true = start_processes-Leaves n _ _ _ _ _ (ground arith)
  with_segment (suc id) (some zero) true = start_processes-Leaves n _ _ _ _ _ (ground arith)
  with_segment zero (some (suc d)) true = start_processes-Leaves n _ _ _ _ _ (ground arith)
  with_segment (suc id) (some (suc d)) true = start_processes-Leaves n _ _ _ _ _ (ground arith)

  paths :
      (f : Bool) (o : Option ℕ) (t : Bool) (g : Option ℕ) (v : Bool)
      → Leaves
          (f && (t && is_some o))
          (is_zero o)
          (is_kept g v)
          (set_up n (calls f o t g v p m forks) at_start).1
  unfolding set_up init_shared_memory
  paths false o t g v = ground arith
  paths true none false g v = ground arith
  paths true none true g v = ground arith
  paths true (some id) false g v = ground arith
  paths true (some id) true g v = with_segment id g v

-- Started where neither exists, and whichever calls fail: the segment is left at the end exactly when the memory
-- was attached and the segment has the number 0; the semaphore is left exactly when the memory was
-- attached, `semget` gave a semaphore, and this has the number 0 or its value could not be set.
pub main-Leaves :
    (argument : Option Bytes) (c : Calls)
    → Leaves
        (attaches argument c)
        (is_zero c.shmget)
        (is_kept c.semget c.setval)
        (main argument c at_start).1
unfolding main
main-Leaves argument c = elim (Option-cases (num_consumers argument)) [
  | inl e ↦ rw (e, main) (ground arith)
  | inr (n, e) ↦
      rw (e, main)
        (paths n c.fork_producer c.malloc c.fork_consumer c.ftok c.shmget c.shmat c.semget c.setval)
]
