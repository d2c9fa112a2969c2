-- ===== src/PipeCopy/Sessions.antt =====
-- The whole of what the parent sends for several files.
use eltex_summer.Base.{
  ℕ, suc, ◌+◌, ◌^◌, ◌<◌, ◌≡◌, refl, ◌∙◌, true, false, some, List, [], ◌∷◌, ◌++◌, Bytes, codes,
  cut_at, starts_with, length, All, arith,
}
use eltex_summer.Chat.Files.{Directory, put}
use eltex_summer.PipeCopy.{Env, Child, create_copy_name, header, on_end, child_process}
use eltex_summer.PipeCopy.Headers.{IsName}
use eltex_summer.PipeCopy.Copies.{copied, IsPlain, joined, child_process-header}

-- A file with the chunks in which the child reads it
pub record Job : Type 0 where
  pub name : Bytes
  pub chunks : List Bytes

-- What the child reads: for each file its header and its chunks, and "END"
unfoldable pub reads_of : List Job → List Bytes
reads_of [] = (codes "END" ++ 0 ∷ []) ∷ []
reads_of (j ∷ jobs) = header j.name (length (joined j.chunks)) ∷ j.chunks ++ reads_of jobs

-- The directory with the copies
unfoldable pub with_copies : Directory → List Job → Directory
with_copies files [] = files
with_copies files (j ∷ jobs) =
    with_copies (put files (create_copy_name j.name) (joined j.chunks)) jobs

-- A file that is not empty, which can be copied and is not taken for commands
pub record IsJob (env : Env) (j : Job) : Type 0 where
  pub named : IsName j.name (length (joined j.chunks))
  pub can_open : env.open_ok (create_copy_name j.name) ≡ true
  pub can_write : (n : ℕ) → env.write_ok (create_copy_name j.name) n ≡ true
  pub plain : All IsPlain j.chunks
  pub some_bytes : 0 < length (joined j.chunks)
  pub int_size : length (joined j.chunks) < 2 ^ 31

-- When the child has no file open and its reads return the header of each file by itself, the bytes of the file in
-- chunks of at most 4095, and "END" at the end: it ends, and its directory is the one before with exactly the
-- copies of these files, each whole, written in turn; it has sent one ACK for each file, and none is open.
-- Each file is not empty, has less than 2^31 bytes and a name that the header can carry, and can be opened
-- and written, and no chunk begins with "FILE:" or "END".
pub child_process-reads_of :
    (env : Env) (jobs : List Job) (c : Child)
    → c.opened ≡ false
    → All (IsJob env) jobs
    → (after : Child) × (child_process env (reads_of jobs) c ≡ some after)
      × (after.opened ≡ false)
      × (after.files ≡ with_copies c.files jobs)
      × (after.acks ≡ c.acks + length jobs)
unfolding reads_of with_copies child_process on_end starts_with cut_at
child_process-reads_of env [] c shut h = (c, simp (shut) refl, shut, refl, omega arith)
child_process-reads_of env (j ∷ jobs) c shut h =
    let (after, e, closed, files, acks) =
      child_process-reads_of env jobs
        (copied j.name (length (joined j.chunks)) (suc c.acks)
          (put c.files (create_copy_name j.name) (joined j.chunks)))
        refl h.1 in
    (
      after,
      child_process-header env j.name (joined j.chunks) j.chunks (reads_of jobs) c h.0.named shut
            h.0.can_open h.0.can_write h.0.plain refl h.0.some_bytes h.0.int_size
          ∙ e,
      closed,
      files,
      omega (arith, acks),
    )
