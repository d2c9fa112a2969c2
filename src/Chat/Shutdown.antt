-- ===== src/Chat/Shutdown.antt =====
-- module3/07/server.c, `init_file_storage`, `cleanup_files` and `signal_handler`, and `create_directory` of
-- chat_utils.c: the directory of the files from the start of the server to its end.
use mathlib.Core.List.{Sublistᴰ}
use eltex_summer.Base.{
  ℕ, ◌≡◌, refl, sym, ap, ◌∙◌, inl, inr, Bool, true, false, ◌&&◌, Option, none, some, List, [], ◌∷◌,
  ◌++◌, Bytes, codes, str_eq, str_eq_iff, map, if◌then◌else◌, ◌>>=◌, Bool-cases, arith,
}
use eltex_summer.Chat.{Message, Client, Env, Returning, Attempts, broadcast_message}
use eltex_summer.Chat.Broadcast.{broadcast_message-Returns}
use eltex_summer.Chat.Delivery.{deliveries, deliveries-everyone, broadcast_message-deliveries}
use eltex_summer.Chat.Files.{Directory, content, FileReceiver, Server}

-- Which calls on the directory succeed, `remove` by the name of the file. `rmdir` can succeed only on a
-- directory without entries.
pub record DirectoryCalls : Type 0 where
  pub mkdir_ok : Bool
  pub opendir_ok : Bool
  pub rmdir_ok : Bool
  pub removes : Bytes → Bool

-- `create_directory`; `none`: there is no such directory.
unfoldable pub create_directory : DirectoryCalls → Option Directory → Option Directory
create_directory calls (some files) = some files
create_directory calls none = if calls.mkdir_ok then some [] else none

unfoldable pub init_file_storage : DirectoryCalls → Option Directory → Option Directory
init_file_storage = create_directory

-- The loop of `cleanup_files`: the files that are left
unfoldable pub left_by : (Bytes → Bool) → Directory → Directory
left_by removes [] = []
left_by removes ((n, c) ∷ files) =
    let rest = left_by removes files in if removes n then rest else (n, c) ∷ rest

unfoldable pub remove_directory : Bool → Directory → Option Directory
remove_directory ok [] = if ok then none else some []
remove_directory ok (f ∷ files) = some (f ∷ files)

unfoldable pub clean_directory : DirectoryCalls → Option Directory → Option Directory
clean_directory calls none = none
clean_directory calls (some files) =
    if calls.opendir_ok
    then remove_directory calls.rmdir_ok (left_by calls.removes files)
    else some files

unfoldable pub close_receiver : FileReceiver → FileReceiver
close_receiver r = if r.opened then record r { opened = false; is_receiving = false } else r

-- `cleanup_files`
unfoldable pub cleanup_files :
    DirectoryCalls → FileReceiver × Option Directory → FileReceiver × Option Directory
cleanup_files calls (r, d) = (close_receiver r, clean_directory calls d)

-- The message of `signal_handler`. It is not initialized: the other fields are those of `unset`.
unfoldable pub farewell : Message → Message
farewell unset = record unset {
  kind = 2;
  nickname = codes "SERVER";
  data_ = codes "Server is shutting down";
}

-- What there is when the server ends
pub record Ended : Type 0 where
  pub clients : List Client
  pub sent : Attempts
  pub receiver : FileReceiver
  pub directory : Option Directory

-- `signal_handler`, while the directory stands
unfoldable pub signal_handler : Env → DirectoryCalls → Message → Server → Option Ended
signal_handler env calls unset s =
    broadcast_message env (farewell unset) none (s.clients, s.sent) >>= λ room.
    let (receiver, directory) = cleanup_files calls (s.storage.receiver, some s.storage.files) in
    some (record { clients = room.0; sent = room.1; receiver = receiver; directory = directory })

unfoldable pub content_in : Option Directory → Bytes → Option Bytes
content_in none name = none
content_in (some files) name = content files name

-- What `cleanup_files` leaves of the content of a file
unfoldable pub left_content : DirectoryCalls → Bytes → Option Bytes → Option Bytes
left_content calls name c = if calls.opendir_ok && calls.removes name then none else c

content-left_by :
    (removes : Bytes → Bool) (files : Directory) (name : Bytes)
    → content (left_by removes files) name ≡ (if removes name then none else content files name)
unfolding left_by content
content-left_by removes [] name = ground arith
content-left_by removes ((n, c) ∷ files) name = elim (Bool-cases (str_eq n name)) [
  | inl same ↦ elim (Bool-cases (removes n)) [
    | inl gone ↦
        let removed : removes name ≡ true = ap removes (sym ((str_eq_iff n name).0 same)) ∙ gone in
        rw (gone, removed) (content-left_by removes files name ∙ (rw removed refl))
    | inr stays ↦
        let removed : removes name ≡ false =
          ap removes (sym ((str_eq_iff n name).0 same)) ∙ stays in
        rw (stays, removed, same) refl
  ]
  | inr other ↦ elim (Bool-cases (removes n)) [
    | inl gone ↦ rw (gone, other) (content-left_by removes files name)
    | inr stays ↦ rw (stays, other) (content-left_by removes files name)
  ]
]

content_in-remove_directory :
    (ok : Bool) (files : Directory) (name : Bytes)
    → content_in (remove_directory ok files) name ≡ content files name
unfolding content_in remove_directory content
content_in-remove_directory true [] name = refl
content_in-remove_directory false [] name = refl
content_in-remove_directory ok (f ∷ files) name = refl

content_in-clean_directory :
    (calls : DirectoryCalls) (files : Directory) (name : Bytes)
    → content_in (clean_directory calls (some files)) name
      ≡ left_content calls name (content files name)
unfolding clean_directory left_content
content_in-clean_directory calls files name = elim (Bool-cases calls.opendir_ok) [
  | inl e ↦ rw (e) (
      content_in-remove_directory calls.rmdir_ok (left_by calls.removes files) name
      ∙ content-left_by calls.removes files name)
  | inr e ↦ rw (e) (unfold content_in in refl)
]

close_receiver-opened : (r : FileReceiver) → (close_receiver r).opened ≡ false
unfolding close_receiver
close_receiver-opened r = ground arith

-- If all calls of `send_all` come back, whether they succeed or not, the server's signal handler comes to its end. It leaves some of the clients, in
-- their order, closes the file that is being received, and leaves exactly those files, with their contents,
-- that cannot be removed, or all if the directory cannot be opened.
pub signal_handler-Sublistᴰ :
    (env : Env) (calls : DirectoryCalls) (unset : Message) (s : Server)
    → Returning env
    → (e : Ended) × (signal_handler env calls unset s ≡ some e)
      × Sublistᴰ e.clients s.clients
      × (e.receiver.opened ≡ false)
      × ((name : Bytes)
          → content_in e.directory name ≡ left_content calls name (content s.storage.files name))
unfolding signal_handler cleanup_files
signal_handler-Sublistᴰ env calls unset s back =
    let r = broadcast_message-Returns env (farewell unset) none (s.clients, s.sent) back in
    (
      record {
        clients = r.room.0;
        sent = r.room.1;
        receiver = close_receiver s.storage.receiver;
        directory = clean_directory calls (some s.storage.files);
      },
      rw (r.returned) refl,
      r.kept,
      close_receiver-opened s.storage.receiver,
      content_in-clean_directory calls s.storage.files,
    )

left_by_all :
    (removes : Bytes → Bool) (files : Directory)
    → ((name : Bytes) → removes name ≡ true)
    → left_by removes files ≡ []
unfolding left_by
left_by_all removes [] all = refl
left_by_all removes ((n, c) ∷ files) all = rw (all n) (left_by_all removes files all)

-- If all calls of `send_all` come back and succeed, and all calls on the directory succeed, each client gets the farewell once, in the
-- order of the table, and the directory of the files is gone; the next start makes an empty one.
pub signal_handler-map :
    (env : Env) (calls : DirectoryCalls) (unset : Message) (s : Server)
    → Returning env
    → ((sent : Attempts) (fd : ℕ) → env.accepts sent fd ≡ true)
    → calls.mkdir_ok ≡ true
    → calls.opendir_ok ≡ true
    → calls.rmdir_ok ≡ true
    → ((name : Bytes) → calls.removes name ≡ true)
    → (e : Ended) × (signal_handler env calls unset s ≡ some e)
      × (e.clients ≡ s.clients)
      × (e.sent ≡ s.sent ++ map (λ c. (c.fd, farewell unset)) s.clients)
      × (e.directory ≡ none)
      × (init_file_storage calls e.directory ≡ some [])
unfolding signal_handler cleanup_files clean_directory remove_directory init_file_storage
    create_directory
signal_handler-map env calls unset s back ok m o r all = (
  record {
    clients = s.clients;
    sent = s.sent ++ deliveries (farewell unset) none s.clients;
    receiver = close_receiver s.storage.receiver;
    directory = none;
  },
  rw
      (
        broadcast_message-deliveries env (farewell unset) none s.clients s.sent back ok,
        o,
        left_by_all calls.removes s.storage.files all,
        r,
      )
      refl,
  refl,
  ap (λ l. s.sent ++ l) (deliveries-everyone (farewell unset) s.clients),
  refl,
  rw (m) refl,
)
