-- ===== src/Chat/Uploads.antt =====
-- A file that is sent in blocks and put together again.
use mathlib.Core.List.{append_assoc}
use eltex_summer.Base.{
  take_all, ℕ, zero, suc, ◌+◌, ◌%◌, ◌^◌, ◌<◌, ◌≤◌, ◌≡◌, refl, inl, inr, ap, ◌∙◌, true, false,
  Option, some, List, [], ◌∷◌, ◌++◌, Bytes, str_eq, str_eq_iff, str_eq_refl, map, length,
  length-append, length-take, length-drop, take-append-drop, take, drop, leb, ltb, ◌>>=◌,
  Bool-cases, arith,
}
use eltex_summer.Base.Int.{pos}
use eltex_summer.Chat.{Message, Env}
use eltex_summer.Chat.Files.{
  Directory, content, put, append_to, Storage, receives, start_file_receive, write_chunk,
  write_data, append_file_data, finish_file_receive, file_messages, send_file_to_client-some,
  blocks, file_message, send_file_to_client, is_positive, store_message,
}

pub content-put_same :
    (files : Directory) (name c : Bytes) → content (put files name c) name ≡ some c
unfolding content put
content-put_same [] name c = rw (str_eq_refl name)
content-put_same ((n, d) ∷ files) name c =
    ground (arith, content-put_same files name c, str_eq_refl name)

pub content-put_other :
    (files : Directory) (name n c : Bytes)
    → str_eq name n ≡ false
    → content (put files name c) n ≡ content files n
unfolding content put
content-put_other [] name n c h = rw h
content-put_other ((m, d) ∷ files) name n c h = ground (
  arith,
  content-put_other files name n c h,
  str_eq_iff m name,
  str_eq_iff m n,
  str_eq_iff name n,
)

pub take_255 : (name : Bytes) → length name < 256 → take 255 name ≡ name
take_255 name h = take_all 255 name (omega arith)

-- `n` bytes of the file `name` have been received, of `total` bytes.
abbrev pub partial : Bytes → ℕ → ℕ → Option ℕ → Directory → Storage
partial name n total fd files = record {
  receiver = record {
    opened = true;
    filename = name;
    bytes_received = n;
    total_size = total;
    is_receiving = true;
    sender_fd = fd;
  };
  files = files;
}

-- All of them have been received.
abbrev pub finished : Bytes → ℕ → Option ℕ → Directory → Storage
finished name total fd files = record {
  receiver = record {
    opened = false;
    filename = name;
    bytes_received = total;
    total_size = total;
    is_receiving = false;
    sender_fd = fd;
  };
  files = files;
}

pub put-put :
    (files : Directory) (name c d : Bytes) → put (put files name c) name d ≡ put files name d
unfolding put
put-put [] name c d = rw (str_eq_refl name)
put-put ((n, b) ∷ files) name c d = elim (Bool-cases (str_eq n name)) [
  | inl e ↦ rw (e, put, e)
  | inr e ↦ rw (e, put, e) (ap (λ l. (n, b) ∷ l) (put-put files name c d))
]

pub start_file_receive-partial :
    (env : Env) (fd : Option ℕ) (name : Bytes) (total : ℕ) (s : Storage)
    → length name < 256
    → env.fopen_ok name ≡ true
    → receives s.receiver name ≡ false
    → start_file_receive env name total fd s ≡ partial name 0 total fd (put s.files name [])
unfolding start_file_receive
start_file_receive-partial env fd name total s short ok fresh = rw (fresh, ok, take_255 name short)

pub append_to-content :
    (files : Directory) (name c x : Bytes)
    → content files name ≡ some c
    → append_to files name x ≡ put files name (c ++ x)
unfolding append_to
append_to-content files name c x h = rw (h, append_to)

write_more :
    (files : Directory) (name c x : Bytes) (total : ℕ) (fd : Option ℕ)
    → content files name ≡ some c
    → length c + length x < total
    → total < 2 ^ 31
    → write_chunk (length x) x (partial name (length c) total fd files)
      ≡ partial name (length (c ++ x)) total fd (put files name (c ++ x))
unfolding write_chunk
write_more files name c x total fd h less small =
    let more : leb total (length c + length x) ≡ false = ground arith in
    let same : (length c + length x) % 2 ^ 32 ≡ length c + length x = omega arith in
    let positive : ltb (length c + length x) (2 ^ 31) ≡ true = ground arith in
    rw (same, positive, more, append_to-content files name c x h, length-append c x)
      (elim (Bool-cases (ltb 0 total)) [ inl e ↦ rw e | inr e ↦ rw e ])

write_last :
    (files : Directory) (name c x : Bytes) (total : ℕ) (fd : Option ℕ)
    → content files name ≡ some c
    → length c + length x ≡ total
    → 0 < length x
    → total < 2 ^ 31
    → write_chunk (length x) x (partial name (length c) total fd files)
      ≡ finished name total fd (put files name (c ++ x))
unfolding write_chunk
write_last files name c x total fd h all some_x small =
    let same : (length c + length x) % 2 ^ 32 ≡ length c + length x = omega arith in
    let not_negative : ltb (length c + length x) (2 ^ 31) ≡ true = ground arith in
    let last : leb total (length c + length x) ≡ true = ground arith in
    let positive : ltb 0 total ≡ true = ground arith in
    rw (same, not_negative, last, positive, append_to-content files name c x h, all)

-- A block is written to the file that is being received.
pub append_block :
    (env : Env) (n total : ℕ) (name x : Bytes) (from : Option ℕ) (files : Directory)
    → length x ≤ 4096
    → append_file_data env name x (pos (length x)) (partial name n total from files)
      ≡ some (write_chunk (length x) x (partial name n total from files))
unfolding append_file_data receives write_data
append_block env n total name x from files small =
    let fits : ltb 4096 (length x) ≡ false = ground arith in
    rw (str_eq_refl name, fits, take_all (length x) x (omega arith))

store_block :
    (env : Env) (fd n total : ℕ) (name x : Bytes) (from : Option ℕ) (files : Directory)
    → length name < 256
    → length x ≤ 4096
    → store_message env fd (file_message 5 name x total) (partial name n total from files)
      ≡ some (write_chunk (length x) x (partial name n total from files))
unfolding store_message file_message receives
store_block env fd n total name x from files short small =
    rw (take_255 name short, str_eq_refl name) (append_block env n total name x from files small)

-- The messages one after the other.
unfoldable pub store_all : Env → ℕ → List Message → Storage → Option Storage
store_all env fd [] s = some s
store_all env fd (m ∷ messages) s = store_message env fd m s >>= λ s'. store_all env fd messages s'

pub blocks_nil : (fuel : ℕ) → blocks fuel [] ≡ []
unfolding blocks
blocks_nil zero = refl
blocks_nil (suc fuel) = refl

pub blocks_step :
    (fuel : ℕ) (rest : Bytes)
    → 0 < length rest
    → blocks (suc fuel) rest ≡ take 4096 rest ∷ blocks fuel (drop 4096 rest)
unfolding blocks
blocks_step fuel [] h = absurd (omega arith)
blocks_step fuel (y ∷ ys) h = refl

pub empty_of_length : (xs : Bytes) → length xs ≤ 0 → xs ≡ []
empty_of_length [] h = refl
empty_of_length (x ∷ xs) h = absurd (omega arith)

-- The blocks of `rest`, behind the first bytes `c` of the file.
store_blocks :
    (env : Env) (fd fuel total : ℕ) (name c rest : Bytes) (from : Option ℕ) (files : Directory)
    (behind : List Message)
    → length name < 256
    → content files name ≡ some c
    → 0 < length rest
    → length rest ≤ fuel
    → length c + length rest ≡ total
    → total < 2 ^ 31
    → store_all env fd
        (map (λ x. file_message 5 name x total) (blocks fuel rest) ++ behind)
        (partial name (length c) total from files)
      ≡ store_all env fd behind (finished name total from (put files name (c ++ rest)))
unfolding store_all
store_blocks env fd zero total name c rest from files behind short h some_rest e k int =
    absurd (omega arith)
store_blocks env fd (suc fuel) total name c rest from files behind short h some_rest e k int =
    elim (Bool-cases (leb (length rest) 4096)) [
      | inl last ↦
          let small : length rest ≤ 4096 = ground arith in
          rw (
            blocks_step fuel rest some_rest,
            take_all 4096 rest small,
            empty_of_length (drop 4096 rest) (omega (arith, length-drop 4096 rest)),
            blocks_nil fuel,
            store_block env fd (length c) total name rest from files short small,
            write_last files name c rest total from h k some_rest int,
          )
      | inr more ↦
          let large : 4096 < length rest = ground arith in
          let size : length (take 4096 rest) ≡ 4096 = omega (arith, length-take 4096 rest) in
          let left : length (drop 4096 rest) + 4096 ≡ length rest =
            omega (arith, length-drop 4096 rest) in
          let c' : Bytes = c ++ take 4096 rest in
          let size' : length c' ≡ length c + 4096 =
            omega (arith, size, length-append c (take 4096 rest)) in
          let whole : c' ++ drop 4096 rest ≡ c ++ rest =
            append_assoc c (take 4096 rest) (drop 4096 rest)
            ∙ ap (λ l. c ++ l) (take-append-drop 4096 rest) in
          rw
            (
              blocks_step fuel rest some_rest,
              store_block env fd (length c) total name (take 4096 rest) from files short
                  (omega (arith, size)),
              write_more files name c (take 4096 rest) total from h (omega (arith, size)) int,
            )
            (store_blocks env fd fuel total name c' (drop 4096 rest) from (put files name c') behind
                short (content-put_same files name c') (omega arith) (omega arith) (omega arith) int
              ∙ rw (put-put files name c' (c' ++ drop 4096 rest), whole))
    ]

store_first :
    (env : Env) (fd total : ℕ) (name : Bytes) (s : Storage)
    → length name < 256
    → env.fopen_ok name ≡ true
    → receives s.receiver name ≡ false
    → store_message env fd (file_message 4 name [] total) s
      ≡ some (partial name 0 total (some fd) (put s.files name []))
unfolding store_message file_message is_positive
store_first env fd total name s short ok fresh =
    rw (take_255 name short, start_file_receive-partial env (some fd) name total s short ok fresh)

store_end :
    (env : Env) (fd total : ℕ) (name : Bytes) (from : Option ℕ) (files : Directory)
    → store_message env fd (file_message 6 name [] total) (finished name total from files)
      ≡ some (finished name total from files)
unfolding store_message file_message finish_file_receive
store_end env fd total name from files = refl

-- The messages that `send_file_to_client` sends of a file that is not empty, one by one to a
-- server that is not receiving a file of that name and can open it, put the same file there, whole
-- and closed, and change no other file. The name is shorter than 256 bytes, the file than 2^31.
pub store_all-send_file_to_client :
    (env : Env) (fd : ℕ) (files : Directory) (name file : Bytes) (s : Storage)
    → content files name ≡ some file
    → 0 < length file
    → length file < 2 ^ 31
    → length name < 256
    → env.fopen_ok name ≡ true
    → receives s.receiver name ≡ false
    → (s' : Storage) × (store_all env fd (send_file_to_client files name) s ≡ some s')
      × (s'.receiver.is_receiving ≡ false)
      × (content s'.files name ≡ some file)
      × ((n : Bytes) → str_eq name n ≡ false → content s'.files n ≡ content s.files n)
unfolding store_all file_messages
store_all-send_file_to_client env fd files name file s h some_file int short ok fresh =
    let opened : Directory = put s.files name [] in
    let blocks_stored =
      store_blocks env fd (length file) (length file) name [] file (some fd) opened
        (file_message 6 name [] (length file) ∷ []) short (content-put_same s.files name [])
        some_file (omega arith) (omega arith) int in
    (
      finished name (length file) (some fd) (put s.files name file),
      ap (λ ms. store_all env fd ms s) (send_file_to_client-some files name file h int)
          ∙ rw (store_first env fd (length file) name s short ok fresh) (
              blocks_stored
              ∙ rw (
                store_end env fd (length file) name (some fd) (put opened name file),
                put-put s.files name [] file,
              )),
      refl,
      content-put_same s.files name file,
      λ n ne. content-put_other s.files name n file ne,
    )
