-- ===== src/PipeCopy/Copies.antt =====
-- A file that the child gets over the pipe in any chunks arrives whole.
use mathlib.Core.List.{append_assoc, append-nil}
use eltex_summer.Base.{
  ℕ, suc, ◌+◌, ◌-◌, ◌%◌, ◌^◌, ◌<◌, ◌≤◌, ◌≡◌, refl, ap, ◌∙◌, inl, inr, true, false, some, List, [],
  ◌∷◌, ◌++◌, Bytes, codes, c_str, starts_with, length, length-append, take_all, min, All,
  Bool-cases, leb, ltb, if◌then◌else◌, ◌>>=◌, arith,
}
use eltex_summer.Base.Int.{pos}
use eltex_summer.Base.Scan.{decimal, scan_signed-decimal}
use eltex_summer.Chat.Files.{Directory, content, put}
use eltex_summer.Chat.Uploads.{content-put_same, put-put, append_to-content}
use eltex_summer.PipeCopy.{
  Env, Child, create_copy_name, header, parse_header, left_to_write, acknowledge, with_size,
  open_copy, in_place, name_copy, name_if_sized, on_header, on_bytes, child_process,
}
use eltex_summer.PipeCopy.Headers.{IsName, c_str-header, parse_header-header_text}

-- The child is getting the copy of `name`, which has `c` so far.
abbrev pub copying : Bytes → ℕ → Bytes → ℕ → Directory → Child
copying name size c acks files = record {
  opened = true;
  is_receiving = true;
  filename = name;
  copy_name = create_copy_name name;
  file_size = pos size;
  total_bytes = length c;
  acks = acks;
  files = files;
}

-- The copy is complete.
abbrev pub copied : Bytes → ℕ → ℕ → Directory → Child
copied name size acks files = record {
  opened = false;
  is_receiving = false;
  filename = name;
  copy_name = create_copy_name name;
  file_size = pos size;
  total_bytes = size;
  acks = acks;
  files = files;
}

-- A chunk that one `read` can return and that is not taken for a command
pub record IsPlain (chunk : Bytes) : Type 0 where
  pub some_bytes : 0 < length chunk
  pub one_read : length chunk ≤ 4095
  pub no_header : starts_with (c_str chunk) (codes "FILE:") ≡ false
  pub no_end : starts_with (c_str chunk) (codes "END") ≡ false

unfoldable pub joined : List Bytes → Bytes
joined [] = []
joined (chunk ∷ chunks) = chunk ++ joined chunks

child_process-IsPlain :
    (env : Env) (chunk : Bytes) (chunks : List Bytes) (c : Child)
    → IsPlain chunk
    → child_process env (chunk ∷ chunks) c ≡ child_process env chunks (on_bytes env chunk c)
unfolding child_process
child_process-IsPlain env [] chunks c p = absurd (omega (arith, p.some_bytes))
child_process-IsPlain env (b ∷ bytes) chunks c p = simp (p.no_header, p.no_end) refl

-- A chunk with which the copy is not yet complete
on_bytes_more :
    (env : Env) (name chunk c : Bytes) (size acks : ℕ) (files : Directory)
    → env.write_ok (create_copy_name name) (length c) ≡ true
    → content files (create_copy_name name) ≡ some c
    → length c + length chunk < size
    → size < 2 ^ 31
    → on_bytes env chunk (copying name size c acks files)
      ≡ copying name size (c ++ chunk) acks (put files (create_copy_name name) (c ++ chunk))
unfolding on_bytes left_to_write
on_bytes_more env name chunk c size acks files ok h less int =
    let before : ltb (length c) (2 ^ 31) ≡ true = ground arith in
    let sum : (length c + length chunk) % 2 ^ 32 ≡ length c + length chunk = omega arith in
    let after : ltb (length c + length chunk) (2 ^ 31) ≡ true = ground arith in
    let all : min (length chunk) (size - length c) ≡ length chunk = omega arith in
    let some_left : leb (size - length c) 0 ≡ false = ground arith in
    let still : leb (size - (length c + length chunk)) 0 ≡ false = ground arith in
    rw
      (
        before,
        all,
        some_left,
        ok,
        sum,
        after,
        still,
        take_all (length chunk) chunk (omega arith),
        append_to-content files (create_copy_name name) c chunk h,
        length-append c chunk,
      )
      refl

on_bytes_last :
    (env : Env) (name chunk c : Bytes) (size acks : ℕ) (files : Directory)
    → env.write_ok (create_copy_name name) (length c) ≡ true
    → 0 < length chunk
    → content files (create_copy_name name) ≡ some c
    → length c + length chunk ≡ size
    → size < 2 ^ 31
    → on_bytes env chunk (copying name size c acks files)
      ≡ copied name size (suc acks) (put files (create_copy_name name) (c ++ chunk))
unfolding on_bytes left_to_write acknowledge
on_bytes_last env name chunk c size acks files ok some_bytes h all int =
    let before : ltb (length c) (2 ^ 31) ≡ true = ground arith in
    let sum : (length c + length chunk) % 2 ^ 32 ≡ length c + length chunk = omega arith in
    let after : ltb (length c + length chunk) (2 ^ 31) ≡ true = ground arith in
    let n : min (length chunk) (size - length c) ≡ length chunk = omega arith in
    let some_left : leb (size - length c) 0 ≡ false = ground arith in
    let none_left : leb (size - (length c + length chunk)) 0 ≡ true = ground arith in
    rw
      (
        before,
        n,
        some_left,
        ok,
        sum,
        after,
        none_left,
        take_all (length chunk) chunk (omega arith),
        append_to-content files (create_copy_name name) c chunk h,
        all,
      )
      refl

no_chunks : (chunks : List Bytes) → All IsPlain chunks → length (joined chunks) ≤ 0 → chunks ≡ []
unfolding joined
no_chunks [] p h = refl
no_chunks (chunk ∷ chunks) p h =
    absurd (omega (arith, p.0.some_bytes, length-append chunk (joined chunks)))

child_process-joined :
    (env : Env) (chunks behind : List Bytes) (name c : Bytes) (size acks : ℕ) (files : Directory)
    → ((n : ℕ) → env.write_ok (create_copy_name name) n ≡ true)
    → All IsPlain chunks
    → content files (create_copy_name name) ≡ some c
    → 0 < length (joined chunks)
    → length c + length (joined chunks) ≡ size
    → size < 2 ^ 31
    → child_process env (chunks ++ behind) (copying name size c acks files)
      ≡ child_process env behind
          (copied name size (suc acks) (put files (create_copy_name name) (c ++ joined chunks)))
unfolding joined
child_process-joined env [] behind name c size acks files ok p h some_bytes all int =
    absurd (omega arith)
child_process-joined env (chunk ∷ chunks) behind name c size acks files ok p h some_bytes all int =
    let sum : length (chunk ++ joined chunks) ≡ length chunk + length (joined chunks) =
      length-append chunk (joined chunks) in
    elim (Bool-cases (leb (length (joined chunks)) 0)) [
      | inl last ↦
          let none_left : chunks ≡ [] = no_chunks chunks p.1 (ground arith) in
          rw
            (
              none_left,
              child_process-IsPlain env chunk behind (copying name size c acks files) p.0,
              on_bytes_last env name chunk c size acks files (ok (length c)) p.0.some_bytes h
                  (ground (arith, sum)) int,
              append-nil chunk,
            )
            refl
      | inr more ↦
          rw
            (
              child_process-IsPlain env chunk (chunks ++ behind) (copying name size c acks files)
                  p.0,
              on_bytes_more env name chunk c size acks files (ok (length c)) h (ground (arith, sum))
                  int,
            )
            (child_process-joined env chunks behind name (c ++ chunk) size acks
                (put files (create_copy_name name) (c ++ chunk)) ok p.1
                (content-put_same files (create_copy_name name) (c ++ chunk)) (ground arith)
                (omega (arith, sum, length-append c chunk)) int
              ∙ rw
                  (
                    put-put files (create_copy_name name) (c ++ chunk)
                        ((c ++ chunk) ++ joined chunks),
                    append_assoc c chunk (joined chunks),
                  )
                  refl)
    ]

on_header-header :
    (env : Env) (name : Bytes) (size : ℕ) (c : Child)
    → IsName name (suc size)
    → c.opened ≡ false
    → env.open_ok (create_copy_name name) ≡ true
    → on_header env (header name (suc size)) c
      ≡ some (copying name (suc size) [] c.acks (put c.files (create_copy_name name) []))
unfolding on_header name_if_sized name_copy open_copy with_size in_place
on_header-header env name size c n shut ok =
    let text : Bytes = codes "SIZE:" ++ decimal (suc size) in
    let parts : parse_header (c_str (header name (suc size))) ≡ (some name, some text) =
      ap parse_header (c_str-header name (suc size) n)
      ∙ parse_header-header_text name (suc size) n in
    let closed : (if c.opened then acknowledge c else c) ≡ c = simp (shut) refl in
    let fits : ltb 255 (length name + 5) ≡ false = ground (arith, n.short) in
    ap (λ q. name_if_sized env q.0 q.1 (if c.opened then acknowledge c else c)) parts
    ∙ (ap (name_if_sized env (some name) (some text)) closed
        ∙ rw (fits, scan_signed-decimal (suc size), ok) refl)

-- A chunk that is a header
child_process-on_header :
    (env : Env) (chunk : Bytes) (chunks : List Bytes) (c : Child)
    → 0 < length chunk
    → starts_with (c_str chunk) (codes "FILE:") ≡ true
    → child_process env (chunk ∷ chunks) c ≡ (on_header env chunk c >>= child_process env chunks)
unfolding child_process
child_process-on_header env [] chunks c h e = absurd (omega arith)
child_process-on_header env (b ∷ bytes) chunks c h e = simp (e) refl

header-starts_with :
    (name : Bytes) (size : ℕ)
    → IsName name size
    → (0 < length (header name size))
      × (starts_with (c_str (header name size)) (codes "FILE:") ≡ true)
unfolding header starts_with
header-starts_with name size n =
    (omega arith, ap (λ t. starts_with t (codes "FILE:")) (c_str-header name size n))

-- From a child that has no file open, the header of a file that is not empty and then its bytes in chunks
-- make the copy of the file, whole and closed, with one ACK more, and the child goes on with
-- what comes behind. The copy can be opened and written; the header is read by itself and fits into
-- its array; the name has no '|', no zero and no "SIZE:"; no chunk begins with "FILE:" or "END".
pub child_process-header :
    (env : Env) (name file : Bytes) (chunks behind : List Bytes) (c : Child)
    → IsName name (length file)
    → c.opened ≡ false
    → env.open_ok (create_copy_name name) ≡ true
    → ((n : ℕ) → env.write_ok (create_copy_name name) n ≡ true)
    → All IsPlain chunks
    → joined chunks ≡ file
    → 0 < length file
    → length file < 2 ^ 31
    → child_process env (header name (length file) ∷ chunks ++ behind) c
      ≡ child_process env behind
          (copied name (length file) (suc c.acks) (put c.files (create_copy_name name) file))
child_process-header env name [] chunks behind c n shut ok writes plain whole some_bytes int =
    absurd (omega arith)
child_process-header env name (b ∷ file) chunks behind c n shut ok writes plain whole some_bytes
      int =
    let size : ℕ = suc (length file) in
    let (long, starts) = header-starts_with name size n in
    let files : Directory = put c.files (create_copy_name name) [] in
    let joined_size : length (joined chunks) ≡ size = ap length whole in
    child_process-on_header env (header name size) (chunks ++ behind) c long starts
    ∙ (ap (λ o. o >>= child_process env (chunks ++ behind))
          (on_header-header env name (length file) c n shut ok)
        ∙ (child_process-joined env chunks behind name [] size c.acks files writes plain
              (content-put_same c.files (create_copy_name name) []) (omega (arith, joined_size))
              (omega (arith, joined_size)) int
            ∙ ap (λ fs. child_process env behind (copied name size (suc c.acks) fs))
                (ap (put files (create_copy_name name)) whole
                  ∙ put-put c.files (create_copy_name name) [] (b ∷ file))))
