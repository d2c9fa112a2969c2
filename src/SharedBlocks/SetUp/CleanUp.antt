-- ===== src/SharedBlocks/SetUp/CleanUp.antt =====
-- What the program leaves behind.
use eltex_summer.Base.{
  ℕ, zero, suc, ◌≡◌, ◌≢◌, Bool, true, false, ◌&&◌, Option, none, some, Bytes, Bool-cases,
  Option-cases, inl, inr, arith,
}
use eltex_summer.SharedBlocks.SetUp.{
  null, valid, Ipc, Calls, init_shared_memory, init_semaphore, cleanup_all_ipc, num_consumers,
  fork_consumers, start_processes, set_up, main,
}

-- Nothing of the program stands in the system; `fd` may stay open if it is 0.
pub record IsClean (opened : Option ℕ) (s : Ipc) : Type 0 where
  pub no_shm : s.shm_exists ≡ false
  pub no_sem : s.sem_exists ≡ false
  pub no_mapping : s.shm ≢ valid
  pub no_semaphore : s.sem ≢ valid
  pub no_shm_name : s.shm_name ≡ false
  pub no_sem_name : s.sem_name ≡ false
  pub no_file : opened ≢ some 0 → s.file_open ≡ false

abbrev pub at_start : Ipc
at_start = record {
  shm_fd = none;
  shm = null;
  shm_name = false;
  sem = null;
  sem_name = false;
  shm_exists = false;
  sem_exists = false;
  file_open = false;
}

start_processes-IsClean :
    (n : ℕ) (c : Calls) (s : Ipc)
    → IsClean c.shm_open (cleanup_all_ipc s)
    → IsClean c.shm_open (start_processes n c s).1
unfolding start_processes
start_processes-IsClean n c s h =
    elim (Bool-cases (c.fork_producer && (c.malloc && fork_consumers n 0 c.fork_consumer))) [
      | inl e ↦ rw (e) h
      | inr e ↦ rw (e) h
    ]

abbrev calls : Bool → Option ℕ → Bool → Bool → Bool → Bool → Bool → Bool → (ℕ → Bool) → Calls
calls strdup_shm shm_open ftruncate mmap strdup_sem sem_open fork_producer malloc fork_consumer =
    record {
      strdup_shm = strdup_shm;
      shm_open = shm_open;
      ftruncate = ftruncate;
      mmap = mmap;
      strdup_sem = strdup_sem;
      sem_open = sem_open;
      fork_producer = fork_producer;
      malloc = malloc;
      fork_consumer = fork_consumer;
    }

-- One clause for each call that is the first to fail, and one for none
module _ (n : ℕ) (p m : Bool) (forks : ℕ → Bool) where
  paths :
      (a : Bool) (o : Option ℕ) (b d e f : Bool)
      → IsClean o (set_up n (calls a o b d e f p m forks) at_start).1
  unfolding set_up init_shared_memory init_semaphore cleanup_all_ipc
  paths false o b d e f = ground arith
  paths true none b d e f = ground arith
  paths true (some fd) false d e f = ground arith
  paths true (some fd) true false e f = ground arith
  paths true (some zero) true true false f = ground arith
  paths true (some (suc fd)) true true false f = ground arith
  paths true (some zero) true true true false = ground arith
  paths true (some (suc fd)) true true true false = ground arith
  paths true (some zero) true true true true =
      start_processes-IsClean n (calls true (some zero) true true true true p m forks) _
        (ground arith)
  paths true (some (suc fd)) true true true true =
      start_processes-IsClean n (calls true (some (suc fd)) true true true true p m forks) _
        (ground arith)

-- Whichever calls fail, and whatever the argument is: started where neither object exists, the program ends with
-- none of both left, nothing mapped, the semaphore closed and both names freed. The file is closed
-- unless `shm_open` returned the descriptor 0.
pub main-IsClean :
    (argument : Option Bytes) (c : Calls) → IsClean c.shm_open (main argument c at_start).1
unfolding main
main-IsClean argument c = elim (Option-cases (num_consumers argument)) [
  | inl e ↦ rw (e, main) (ground arith)
  | inr (n, e) ↦
      rw (e, main)
        (paths n c.fork_producer c.malloc c.fork_consumer c.strdup_shm c.shm_open c.ftruncate c.mmap
          c.strdup_sem c.sem_open)
]
