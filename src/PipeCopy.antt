-- ===== src/PipeCopy.antt =====
-- module3/01/process.c: a child process that copies files, whose bytes it gets over a pipe. `read` on the
-- pipe hands out what is there, so the child sees a list of chunks. The directory is that of
-- Chat.Files: names with contents. `Env` says which calls of `open` and `write` succeed.
pub mod Headers
pub mod Copies
pub mod Sessions
mod Examples
use eltex_summer.Base.{
  ℕ, zero, suc, ◌+◌, ◌-◌, ◌%◌, ◌^◌, Bool, true, false, not, ◌&&◌, Option, none, some, List, [], ◌∷◌,
  ◌++◌, Bytes, codes, c_str, starts_with, split_at, find_text, length, take, drop, min, map, leb,
  ltb, if◌then◌else◌, ◌>>=◌,
}
use eltex_summer.Base.Int.{ℤ, pos, negsuc}
use eltex_summer.Base.Scan.{decimal, scan_signed}
use eltex_summer.Chat.Files.{Directory, content, put, append_to, blocks}

pub record Env : Type 0 where
  pub open_ok : Bytes → Bool
  pub write_ok : Bytes → ℕ → Bool

-- The variables of `child_process`; `opened` says that `file_fd` is not -1. `acks` are those sent.
pub record Child : Type 0 where
  pub opened : Bool
  pub is_receiving : Bool
  pub filename : Bytes
  pub copy_name : Bytes
  pub file_size : ℤ
  pub total_bytes : ℕ
  pub acks : ℕ
  pub files : Directory

-- `create_copy_name`
unfoldable pub create_copy_name : Bytes → Bytes
create_copy_name original = original ++ codes ".copy"

-- The header of a file, with its final zero
unfoldable pub header : Bytes → ℕ → Bytes
header name size = take 511 (codes "FILE:" ++ (name ++ (codes "|SIZE:" ++ decimal size))) ++ 0 ∷ []

-- What `parent_process` writes; it waits for an ACK behind each file, and passes over missing files. The files are
-- those before its start: none that it sends is a copy that the child makes.
unfoldable pub parent_writes : Directory → List Bytes → List Bytes
parent_writes files [] = (codes "END" ++ 0 ∷ []) ∷ []
parent_writes files (name ∷ names) = elim (content files name) [
  | none ↦ parent_writes files names
  | some file ↦ header name (length file) ∷ blocks (length file) file ++ parent_writes files names
]

-- The name of a header, if it ends at a '|', and the text at "SIZE:". The zero that is written over the '|'
-- also ends the text at a "SIZE:" in front of it.
unfoldable pub split_header : Bytes → Option (Bytes × Bytes) → Option Bytes × Option Bytes
split_header text none = (none, find_text text (codes "SIZE:"))
split_header text (some (name, after)) = (
  some name,
  elim (find_text (codes "FILE:" ++ name) (codes "SIZE:")) [
    | some s ↦ some s
    | none ↦ find_text after (codes "SIZE:")
  ],
)

unfoldable pub parse_header : Bytes → Option Bytes × Option Bytes
parse_header text = split_header text (split_at b'|' (drop 5 text))

-- `file_size - total_bytes`, and 0 where that is negative. `total_bytes` is the pattern of an `int`, from 2^31 on
-- a negative one.
unfoldable pub left_to_write : ℤ → ℕ → ℕ
left_to_write (negsuc n) total = if ltb total (2 ^ 31) then 0 else (2 ^ 32 - total) - suc n
left_to_write (pos size) total =
    if ltb total (2 ^ 31) then size - total else size + (2 ^ 32 - total)

-- The file is closed and an ACK is sent.
unfoldable pub acknowledge : Child → Child
acknowledge c = record c { opened = false; is_receiving = false; acks = suc c.acks }

-- What follows for the size of the header once the copy is open
unfoldable pub with_size : ℤ → Child → Child
with_size (pos zero) c = acknowledge c
with_size (pos (suc n)) c = record c { is_receiving = true; total_bytes = 0 }
with_size (negsuc n) c = record c { is_receiving = true; total_bytes = 0 }

-- The copy is opened, for an empty file also closed.
unfoldable pub open_copy : Env → Child → Child
open_copy env c =
    if env.open_ok c.copy_name
    then with_size c.file_size (record c { opened = true; files = put c.files c.copy_name [] })
    else record c { opened = false }

-- A value that a header gives in place of the old one
unfoldable pub in_place {ℓ} : {A : Type ℓ} → Option A → A → A
in_place none old = old
in_place (some new) old = new

-- The name and the size of a header are taken over. `none`: a name overruns its array.
unfoldable pub name_copy : Env → Option Bytes → Bytes → Child → Option Child
name_copy env name size_text c =
    let filename = in_place name c.filename in
    if ltb 255 (length filename + 5)
    then none
    else some (
        open_copy env (record c {
          filename = filename;
          copy_name = create_copy_name filename;
          file_size = in_place (scan_signed (drop 5 size_text)) c.file_size;
        }))

-- Nothing but a closed file, where the text has no "SIZE:"
unfoldable pub name_if_sized : Env → Option Bytes → Option Bytes → Child → Option Child
name_if_sized env name none c = some c
name_if_sized env name (some size_text) c = name_copy env name size_text c

-- A chunk that begins with "FILE:"
unfoldable pub on_header : Env → Bytes → Child → Option Child
on_header env chunk c =
    let closed = if c.opened then acknowledge c else c in
    let parts = parse_header (c_str chunk) in name_if_sized env parts.0 parts.1 closed

-- A chunk of the file
unfoldable pub on_bytes : Env → Bytes → Child → Child
on_bytes env chunk c =
    let left = left_to_write c.file_size c.total_bytes in
    let n = min (length chunk) left in
    let written = record c {
      total_bytes = (c.total_bytes + n) % 2 ^ 32;
      files = append_to c.files c.copy_name (take n chunk);
    } in
    if not (c.is_receiving && c.opened)
    then c
    else if leb left 0
    then acknowledge c
    else if not (env.write_ok c.copy_name c.total_bytes)
    then record c { opened = false; is_receiving = false }
    else if leb (left_to_write c.file_size written.total_bytes) 0
    then acknowledge written
    else written

-- A chunk that begins with "END"
unfoldable pub on_end : Child → Child
on_end c = if c.opened then acknowledge c else c

-- `child_process` on the chunks that its calls of `read` return, each of at most 4095 bytes, until the end of
-- the data; a read of no bytes is that end
unfoldable pub child_process : Env → List Bytes → Child → Option Child
child_process env [] c = some (record c { opened = false })
child_process env ([] ∷ chunks) c = some (record c { opened = false })
child_process env ((b ∷ bytes) ∷ chunks) c =
    let chunk = b ∷ bytes in
    let rest : Child → Option Child = child_process env chunks in
    if starts_with (c_str chunk) (codes "FILE:")
    then (on_header env chunk c >>= rest)
    else if starts_with (c_str chunk) (codes "END")
    then some (on_end c)
    else rest (on_bytes env chunk c)
