-- ===== src/SharedBlocks/SetUp.antt =====
-- module3/05/ipc_utils.c and main.c: how the shared memory and the semaphore are set up and taken away, as far as
-- the calls on the system succeed.
pub mod CleanUp
use eltex_summer.Base.{
  ℕ, zero, suc, ◌+◌, Bool, true, false, not, ◌&&◌, Option, none, some, Bytes, ltb, if◌then◌else◌,
}
use eltex_summer.Base.Int.{ℤ, pos, negsuc}
use eltex_summer.Base.Scan.{atoi}

-- What `shm` and `sem` hold: NULL, MAP_FAILED or SEM_FAILED, or an address
pub data Address : Type 0 where
  null failed valid : Address

-- The globals, and what of the program's stands in the system: the two named objects and the open file.
-- A name is `true` while its text is allocated.
pub record Ipc : Type 0 where
  pub shm_fd : Option ℕ
  pub shm : Address
  pub shm_name : Bool
  pub sem : Address
  pub sem_name : Bool
  pub shm_exists : Bool
  pub sem_exists : Bool
  pub file_open : Bool

-- Which calls succeed; `shm_open` with its descriptor, `fork_consumer` for each consumer
pub record Calls : Type 0 where
  pub strdup_shm : Bool
  pub shm_open : Option ℕ
  pub ftruncate : Bool
  pub mmap : Bool
  pub strdup_sem : Bool
  pub sem_open : Bool
  pub fork_producer : Bool
  pub malloc : Bool
  pub fork_consumer : ℕ → Bool

-- The cleaning up in `init_shared_memory`: close, shm_unlink, free
unfoldable pub give_up_shm : Ipc → Ipc
give_up_shm s = record s { shm_fd = none; file_open = false; shm_exists = false; shm_name = false }

-- The result is `true` for 0 and `false` for -1.
unfoldable pub map_memory : Calls → Ipc → Bool × Ipc
unfolding give_up_shm
map_memory c s =
    if c.ftruncate
    then (if c.mmap
        then (true, record s { shm = valid })
        else (false, record (give_up_shm s) { shm = failed }))
    else (false, give_up_shm s)

unfoldable pub open_memory : Option ℕ → Calls → Ipc → Bool × Ipc
unfolding map_memory
open_memory none c s = (false, record s { shm_fd = none; shm_name = false })
open_memory (some fd) c s =
    map_memory c
      (record s { shm_fd = some fd; shm_name = true; shm_exists = true; file_open = true })

unfoldable pub init_shared_memory : Calls → Ipc → Bool × Ipc
unfolding open_memory
init_shared_memory c s =
    if c.strdup_shm then open_memory c.shm_open c s else (false, record s { shm_name = false })

unfoldable pub detach : Address → Address
detach null = null
detach failed = failed
detach valid = null

-- `if (shm_fd > 0)`
unfoldable pub close_shm : Option ℕ → Ipc → Ipc
close_shm none s = s
close_shm (some zero) s = s
close_shm (some (suc fd)) s = record s { shm_fd = none; file_open = false }

unfoldable pub unlink_shm : Ipc → Ipc
unlink_shm s = if s.shm_name then record s { shm_exists = false; shm_name = false } else s

unfoldable pub cleanup_shared_memory : Ipc → Ipc
unfolding detach close_shm unlink_shm
cleanup_shared_memory s = unlink_shm (close_shm s.shm_fd (record s { shm = detach s.shm }))

unfoldable pub init_semaphore : Calls → Ipc → Bool × Ipc
init_semaphore c s =
    if c.strdup_sem
    then (if c.sem_open
        then (true, record s { sem = valid; sem_name = true; sem_exists = true })
        else (false, record s { sem = failed; sem_name = false }))
    else (false, record s { sem_name = false })

unfoldable pub cleanup_semaphore : Ipc → Ipc
unfolding detach
cleanup_semaphore s =
    let closed = record s { sem = detach s.sem } in
    if s.sem_name then record closed { sem_exists = false; sem_name = false } else closed

unfoldable pub cleanup_all_ipc : Ipc → Ipc
unfolding cleanup_shared_memory cleanup_semaphore
cleanup_all_ipc s = cleanup_semaphore (cleanup_shared_memory s)

-- `num_consumers`; `none` where the argument is refused
unfoldable pub at_least_one : ℤ → Option ℕ
at_least_one (negsuc n) = none
at_least_one (pos zero) = none
at_least_one (pos (suc n)) = some (suc n)

unfoldable pub num_consumers : Option Bytes → Option ℕ
unfolding at_least_one
num_consumers none = some 1
num_consumers (some text) = at_least_one (atoi text)

-- Whether the consumers from `i` on can all be started
unfoldable pub fork_consumers : ℕ → ℕ → (ℕ → Bool) → Bool
fork_consumers zero i forks = true
fork_consumers (suc n) i forks = forks i && fork_consumers n (i + 1) forks

-- From the start of the producer to the end, where all children have ended; the result is the exit code.
unfoldable pub start_processes : ℕ → Calls → Ipc → ℕ × Ipc
start_processes n c s =
    if c.fork_producer && (c.malloc && fork_consumers n 0 c.fork_consumer)
    then (0, cleanup_all_ipc s)
    else (1, cleanup_all_ipc s)

unfoldable pub set_up : ℕ → Calls → Ipc → ℕ × Ipc
set_up n c s =
    let (has_shm, s') = init_shared_memory c s in
    let (has_sem, s'') = init_semaphore c s' in
    if has_shm
    then (if has_sem then start_processes n c s'' else (1, cleanup_shared_memory s''))
    else (1, s')

unfoldable pub main : Option Bytes → Calls → Ipc → ℕ × Ipc
main argument c s = elim (num_consumers argument) [ none ↦ (1, s) | some n ↦ set_up n c s ]
