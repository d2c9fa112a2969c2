-- ===== src/Chat/Exchange.antt =====
-- A file on its way from one client over the server to another one.
use mathlib.Core.List.{append_assoc}
use eltex_summer.Base.{
  take_all, ℕ, zero, suc, ◌+◌, ◌%◌, ◌^◌, ◌<◌, ◌≤◌, ◌≡◌, refl, inl, inr, ap, ◌∙◌, Bool, true, false,
  Option, none, some, List, [], ◌∷◌, ◌++◌, Bytes, str_eq, str_eq_refl, map, length, length-append,
  not, length-take, length-drop, take-append-drop, take, drop, leb, ltb, ◌>>=◌, Bool-cases, arith,
}
use eltex_summer.Chat.{Message, Env}
use eltex_summer.Chat.Files.{
  Directory, content, put, Storage, receives, int_size, file_messages, send_file_to_client-some,
  blocks, file_message, send_file_to_client, is_positive, store_message,
}
use eltex_summer.Chat.Terminal.{
  Downloads, open_received, write_received, close_complete, open_for_block, receive_file,
  upload_message, upload_block, send_file,
}
use eltex_summer.Chat.Uploads.{
  content-put_same, content-put_other, put-put, take_255, append_to-content, store_all, blocks_nil,
  blocks_step, empty_of_length, store_all-send_file_to_client,
}

-- `n` bytes of the file `name` have come, of `total`; it is open or not.
abbrev pub getting : Bool → Bytes → ℕ → ℕ → Directory → Downloads
getting opened name n total files = record {
  incoming = record {
    current_file = name;
    opened = opened;
    bytes_received = n;
    total_size = total;
  };
  files = files;
}

-- The messages one after the other
unfoldable pub receive_all : Env → List Message → Downloads → Option Downloads
receive_all env [] d = some d
receive_all env (m ∷ messages) d = receive_file env m d >>= λ after. receive_all env messages after

receive_block :
    (env : Env) (name c x : Bytes) (total : ℕ) (files : Directory)
    → length name < 256
    → length x ≤ 4096
    → content files name ≡ some c
    → length c + length x < 2 ^ 31
    → receive_file env (file_message 5 name x total) (getting true name (length c) total files)
      ≡ some (
          getting
            (not (leb total (length (c ++ x))))
            name
            (length (c ++ x))
            total
            (put files name (c ++ x)))
unfolding receive_file file_message open_for_block write_received close_complete
receive_block env name c x total files short small h int =
    let same : (length c + length x) % 2 ^ 32 ≡ length c + length x = omega arith in
    let positive : ltb (length c + length x) (2 ^ 31) ≡ true = ground arith in
    let fits : ltb 4096 (length x) ≡ false = ground arith in
    rw
      (
        take_255 name short,
        str_eq_refl name,
        fits,
        take_all (length x) x (omega arith),
        append_to-content files name c x h,
        length-append c x,
        same,
        positive,
      )
      (elim (Bool-cases (leb total (length c + length x))) [
        | inl e ↦ rw (e) refl
        | inr e ↦ rw (e) refl
      ])

receive_first :
    (env : Env) (name : Bytes) (total : ℕ) (d : Downloads)
    → length name < 256
    → env.fopen_ok name ≡ true
    → receive_file env (file_message 4 name [] total) d
      ≡ some (getting true name 0 total (put d.files name []))
unfolding receive_file file_message open_received is_positive
receive_first env name total d short ok = rw (take_255 name short, ok, take_255 name short) refl

receive_end :
    (env : Env) (name : Bytes) (n total : ℕ) (opened : Bool) (files : Directory)
    → receive_file env (file_message 6 name [] total) (getting opened name n total files)
      ≡ some (getting false name n total files)
unfolding receive_file file_message
receive_end env name n total opened files = refl

not_yet : (total n : ℕ) → n < total → leb total n ≡ false
not_yet total n h = ground arith

receive_blocks :
    (env : Env) (fuel total : ℕ) (name c rest : Bytes) (files : Directory) (behind : List Message)
    → length name < 256
    → content files name ≡ some c
    → 0 < length rest
    → length rest ≤ fuel
    → length c + length rest ≡ total
    → total < 2 ^ 31
    → receive_all env
        (map (λ x. file_message 5 name x total) (blocks fuel rest) ++ behind)
        (getting true name (length c) total files)
      ≡ receive_all env behind (getting false name total total (put files name (c ++ rest)))
unfolding receive_all
receive_blocks env zero total name c rest files behind short h some_rest e k int =
    absurd (omega arith)
receive_blocks env (suc fuel) total name c rest files behind short h some_rest e k int =
    elim (Bool-cases (leb (length rest) 4096)) [
      | inl last ↦
          let small : length rest ≤ 4096 = ground arith in
          let all : length (c ++ rest) ≡ total = omega (arith, length-append c rest) in
          let done : leb total total ≡ true = ground arith in
          rw
            (
              blocks_step fuel rest some_rest,
              take_all 4096 rest small,
              empty_of_length (drop 4096 rest) (omega (arith, length-drop 4096 rest)),
              blocks_nil fuel,
              receive_block env name c rest total files short small h (omega arith),
              all,
              done,
            )
            refl
      | inr more ↦
          let large : 4096 < length rest = ground arith in
          let size : length (take 4096 rest) ≡ 4096 = omega (arith, length-take 4096 rest) in
          let left : length (drop 4096 rest) + 4096 ≡ length rest =
            omega (arith, length-drop 4096 rest) in
          let c' : Bytes = c ++ take 4096 rest in
          let size' : length c' ≡ length c + 4096 =
            omega (arith, size, length-append c (take 4096 rest)) in
          let open_still : leb total (length c') ≡ false =
            not_yet total (length c') (omega arith) in
          let whole : c' ++ drop 4096 rest ≡ c ++ rest =
            append_assoc c (take 4096 rest) (drop 4096 rest)
            ∙ ap (λ l. c ++ l) (take-append-drop 4096 rest) in
          rw
            (
              blocks_step fuel rest some_rest,
              receive_block env name c (take 4096 rest) total files short (omega (arith, size)) h
                  (omega (arith, size)),
              open_still,
            )
            (receive_blocks env fuel total name c' (drop 4096 rest) (put files name c') behind short
                (content-put_same files name c') (omega arith) (omega arith) (omega arith) int
              ∙ rw (put-put files name c' (c' ++ drop 4096 rest), whole) refl)
    ]

-- What is sent for the blocks of a file, empty or not
receive_content :
    (env : Env) (name file : Bytes) (files : Directory) (behind : List Message)
    → length name < 256
    → length file < 2 ^ 31
    → (opened : Bool) × (receive_all env
          (map (λ x. file_message 5 name x (length file)) (blocks (length file) file) ++ behind)
          (getting true name 0 (length file) (put files name []))
        ≡ receive_all env behind
            (getting opened name (length file) (length file) (put files name file)))
unfolding blocks
receive_content env name [] files behind short int = (true, refl)
receive_content env name (b ∷ file) files behind short int = (
  false,
  receive_blocks env (suc (length file)) (suc (length file)) name [] (b ∷ file) (put files name [])
        behind short (content-put_same files name []) (omega arith) (omega arith) (omega arith) int
      ∙ ap
          (λ fs.
            receive_all env behind (getting false name (suc (length file)) (suc (length file)) fs))
          (put-put files name [] (b ∷ file)),
)

-- The messages that the server sends of a file, one by one to a client that can open a file of that name,
-- leave the same file there, whole and closed, and change no other file of the client. The name is
-- shorter than 256 bytes, the file than 2^31. Whatever the client was receiving before, and an empty file arrives too.
pub receive_all-send_file_to_client :
    (env : Env) (files : Directory) (name file : Bytes) (d : Downloads)
    → content files name ≡ some file
    → length file < 2 ^ 31
    → length name < 256
    → env.fopen_ok name ≡ true
    → (after : Downloads) × (receive_all env (send_file_to_client files name) d ≡ some after)
      × (after.incoming.opened ≡ false)
      × (content after.files name ≡ some file)
      × ((n : Bytes) → str_eq name n ≡ false → content after.files n ≡ content d.files n)
unfolding receive_all file_messages
receive_all-send_file_to_client env files name file d h int short ok =
    let (open_, e) =
      receive_content env name file d.files (file_message 6 name [] (length file) ∷ []) short int in
    (
      getting false name (length file) (length file) (put d.files name file),
      ap (λ ms. receive_all env ms d) (send_file_to_client-some files name file h int)
          ∙ rw (receive_first env name (length file) d short ok) (
              e
              ∙ rw (receive_end env name (length file) (length file) open_ (put d.files name file))
                  refl),
      refl,
      content-put_same d.files name file,
      λ n ne. content-put_other d.files name n file ne,
    )

>>=-cong :
    {A B : Type 0} (o : Option A) (f g : A → Option B)
    → ((a : A) → f a ≡ g a)
    → (o >>= f) ≡ (o >>= g)
>>=-cong none f g h = refl
>>=-cong (some a) f g h = h a

-- Two lists of messages that a server takes alike
store_all-map :
    (env : Env) (fd : ℕ) (f g : Bytes → Message) (x y : Message) (bs : List Bytes)
    → ((b : Bytes) (s : Storage) → store_message env fd (f b) s ≡ store_message env fd (g b) s)
    → ((s : Storage) → store_message env fd x s ≡ store_message env fd y s)
    → (s : Storage)
    → store_all env fd (map f bs ++ x ∷ []) s ≡ store_all env fd (map g bs ++ y ∷ []) s
unfolding store_all
store_all-map env fd f g x y [] same last s = rw (last s) refl
store_all-map env fd f g x y (b ∷ bs) same last s =
    rw (same b s)
      (>>=-cong (store_message env fd (g b) s) _ _ (store_all-map env fd f g x y bs same last))

-- A server takes the messages of `send_file` like those that it sends itself.
store_all-send_file :
    (env : Env) (garbage : Message) (nickname : Bytes) (fd : ℕ) (local : Directory)
    (name file : Bytes) (s : Storage)
    → content local name ≡ some file
    → store_all env fd (send_file garbage nickname local name) s
      ≡ store_all env fd (send_file_to_client local name) s
unfolding send_file send_file_to_client file_messages store_all store_message file_message
    upload_message upload_block is_positive
store_all-send_file env garbage nickname fd local name file s h =
    rw (send_file, send_file_to_client, h)
      (>>=-cong (store_message env fd (file_message 4 name [] (int_size (length file))) s) _ _ (
        store_all-map env fd (upload_block garbage nickname name (int_size (length file)))
          (λ b. file_message 5 name b (int_size (length file)))
          (upload_message garbage nickname 6 name (int_size (length file)))
          (file_message 6 name [] (int_size (length file))) (blocks (length file) file)
          (λ b t. refl) (λ t. refl)))

-- The way of a file that is not empty and has less than 2^31 bytes: one client sends it, to a server that is not receiving a file of that
-- name; the server stores what arrives; another client is then sent the file. If server and client can
-- open a file of that name, which is shorter than 256 bytes, this client has the same file at the end.
pub receive_all-store_all :
    (env there : Env) (garbage : Message) (nickname : Bytes) (fd : ℕ) (local : Directory)
    (name file : Bytes) (s : Storage) (d : Downloads)
    → content local name ≡ some file
    → 0 < length file
    → length file < 2 ^ 31
    → length name < 256
    → env.fopen_ok name ≡ true
    → there.fopen_ok name ≡ true
    → receives s.receiver name ≡ false
    → (stored : Storage) × (store_all env fd (send_file garbage nickname local name) s
        ≡ some stored)
      × (after : Downloads) × (receive_all there (send_file_to_client stored.files name) d
          ≡ some after)
      × (content after.files name ≡ some file)
receive_all-store_all env there garbage nickname fd local name file s d h some_file int short ok ok'
      fresh =
    let (stored, e, shut, kept, rest) =
      store_all-send_file_to_client env fd local name file s h some_file int short ok fresh in
    let (after, e', shut', kept', rest') =
      receive_all-send_file_to_client there stored.files name file d kept int short ok' in
    (stored, store_all-send_file env garbage nickname fd local name file s h ∙ e, after, e', kept')
