-- ===== src/PipeCopy/Examples.antt =====
-- Two small files over the pipe.
use eltex_summer.Base.{
  find_text, ◌≡◌, refl, true, false, some, List, [], ◌∷◌, Bytes, codes, cut_at, starts_with, All,
  arith,
}
use eltex_summer.Base.Int.{pos}
use eltex_summer.Base.Scan.{decimal}
use eltex_summer.PipeCopy.{Env, Child, child_process}
use eltex_summer.PipeCopy.Headers.{IsName}
use eltex_summer.PipeCopy.Copies.{IsPlain, joined}
use eltex_summer.PipeCopy.Sessions.{Job, reads_of, with_copies, IsJob, child_process-reads_of}

abbrev env : Env
env = record { open_ok = λ name. true; write_ok = λ name n. true }

abbrev idle_child : Child
idle_child = record {
  opened = false;
  is_receiving = false;
  filename = [];
  copy_name = [];
  file_size = pos 0;
  total_bytes = 0;
  acks = 0;
  files = [];
}

abbrev two_chunks : List Bytes
two_chunks = codes "he" ∷ codes "llo" ∷ []

two_chunks-IsPlain : All IsPlain two_chunks
unfolding starts_with cut_at
two_chunks-IsPlain = (
  record { some_bytes = omega arith; one_read = omega arith; no_header = refl; no_end = refl },
  (
    record { some_bytes = omega arith; one_read = omega arith; no_header = refl; no_end = refl },
    tt,
  ),
)

abbrev a_name : Bytes
a_name = codes "a.b"

a_name-IsName : IsName a_name 5
unfolding find_text starts_with decimal
a_name-IsName = record {
  no_bar = (omega arith, (omega arith, (omega arith, tt)));
  no_zero = (omega arith, (omega arith, (omega arith, tt)));
  no_size = refl;
  short = omega arith;
  fits = omega arith;
}

abbrev a_job : Job
a_job = record { name = a_name; chunks = two_chunks }

a_job-IsJob : IsJob env a_job
unfolding joined
a_job-IsJob = record {
  named = a_name-IsName;
  can_open = refl;
  can_write = λ n. refl;
  plain = two_chunks-IsPlain;
  some_bytes = omega arith;
  int_size = omega arith;
}

child_process-reads_of_example :
    (after : Child) × (child_process env (reads_of (a_job ∷ [])) idle_child ≡ some after)
    × (after.opened ≡ false)
    × (after.files ≡ with_copies [] (a_job ∷ []))
    × (after.acks ≡ 1)
child_process-reads_of_example =
    child_process-reads_of env (a_job ∷ []) idle_child refl (a_job-IsJob, tt)
