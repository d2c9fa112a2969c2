-- ===== src/Chat/Interleaved.antt =====
-- Two files that arrive at the same time.
use eltex_summer.Base.{
  ℕ, ◌+◌, ◌%◌, ◌^◌, ◌<◌, ◌≤◌, ◌≡◌, refl, inl, inr, true, false, ◌&&◌, Option, some, [], Bytes,
  str_eq, length, leb, ltb, Bool-cases, arith,
}
use eltex_summer.Chat.{Env}
use eltex_summer.Chat.Files.{
  Directory, content, put, FileReceiver, Storage, receives, write_chunk, file_message,
  store_message,
}
use eltex_summer.Chat.Uploads.{
  partial, content-put_same, take_255, append_to-content, start_file_receive-partial, append_block,
}

store_new_block :
    (env : Env) (fd total : ℕ) (name x : Bytes) (s : Storage)
    → length name < 256
    → env.fopen_ok name ≡ true
    → receives s.receiver name ≡ false
    → length x ≤ 4096
    → store_message env fd (file_message 5 name x total) s
      ≡ some (write_chunk (length x) x (partial name 0 total (some fd) (put s.files name [])))
unfolding store_message file_message
store_new_block env fd total name x s short ok fresh small =
    rw
      (
        take_255 name short,
        fresh,
        start_file_receive-partial env (some fd) name total s short ok fresh,
      )
      (append_block env 0 total name x (some fd) (put s.files name []) small)

write_chunk-filename :
    (n k total : ℕ) (name x : Bytes) (from : Option ℕ) (files : Directory)
    → (write_chunk n x (partial name k total from files)).receiver.filename ≡ name
unfolding write_chunk
write_chunk-filename n k total name x from files =
    elim (Bool-cases
      (ltb 0 total && (ltb ((k + n) % 2 ^ 32) (2 ^ 31) && leb total ((k + n) % 2 ^ 32)))) [
        | inl e ↦ rw e
        | inr e ↦ rw e
      ]

write_chunk-content :
    (n total : ℕ) (name x : Bytes) (from : Option ℕ) (files : Directory)
    → content (write_chunk n x (partial name 0 total from (put files name []))).files name ≡ some x
unfolding write_chunk
write_chunk-content n total name x from files =
    let e = append_to-content (put files name []) name [] x (content-put_same files name []) in
    elim (Bool-cases
      (ltb 0 total && (ltb ((0 + n) % 2 ^ 32) (2 ^ 31) && leb total ((0 + n) % 2 ^ 32)))) [
        | inl c ↦ rw (c, e) (content-put_same (put files name []) name x)
        | inr c ↦ rw (c, e) (content-put_same (put files name []) name x)
      ]

other_name :
    (r : FileReceiver) (a b : Bytes) → r.filename ≡ b → str_eq b a ≡ false → receives r a ≡ false
unfolding receives
other_name r a b e h = rw (e, h) (ground arith)

-- The defect: there is one receiver for all clients. A block of a second file `b` between two
-- blocks of a file `a` makes the server start `a` anew: whatever it had received, only the last
-- block is left. Both files can be opened, their names are shorter than 256 bytes and the blocks
-- have at most 4096.
pub interleaved_files_lose :
    (env : Env) (fd gd n total_a total_b : ℕ) (a b x y : Bytes) (from : Option ℕ)
    (files : Directory)
    → length a < 256
    → length b < 256
    → str_eq a b ≡ false
    → str_eq b a ≡ false
    → env.fopen_ok a ≡ true
    → env.fopen_ok b ≡ true
    → length x ≤ 4096
    → length y ≤ 4096
    → (s : Storage) × (s' : Storage) × (store_message env gd
          (file_message 5 b y total_b)
          (partial a n total_a from files)
        ≡ some s)
      × (store_message env fd (file_message 5 a x total_a) s ≡ some s')
      × (content s'.files a ≡ some x)
interleaved_files_lose env fd gd n ta tb a b x y from files sa sb ab ba oka okb fx fy =
    let before = partial a n ta from files in
    let s = write_chunk (length y) y (partial b 0 tb (some gd) (put files b [])) in
    let named = write_chunk-filename (length y) 0 tb b y (some gd) (put files b []) in
    (
      s,
      write_chunk (length x) x (partial a 0 ta (some fd) (put s.files a [])),
      store_new_block env gd tb b y before sb okb (other_name before.receiver b a refl ab) fy,
      store_new_block env fd ta a x s sa oka (other_name s.receiver a b named ba) fx,
      write_chunk-content (length x) ta a x (some fd) s.files,
    )
