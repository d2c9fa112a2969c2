-- ===== src/Chat/Files.antt =====
-- The files of the server: the one `file_receiver`, the directory `server_files`, and the messages that
-- carry files. The directory is a list of names with contents; what is written to an open file is
-- in it at once.
use eltex_summer.Base.{
  ℕ, zero, suc, ◌+◌, ◌%◌, ◌^◌, ◌<◌, ◌≡◌, ap, arith, Bool, true, false, not, ◌&&◌, Option, none,
  some, List, [], ◌∷◌, ◌++◌, Bytes, codes, str_eq, take, drop, map, length, leb, ltb, ◌==◌,
  if◌then◌else◌, ◌>>=◌,
}
use eltex_summer.Base.Int.{ℤ, pos, negsuc}
use eltex_summer.Base.Scan.{decimal}
use eltex_summer.Chat.{
  Message, Client, Env, Attempts, Room, broadcast_message, remove_client, add_client,
}

abbrev pub Directory : Type 0
Directory = List (Bytes × Bytes)

unfoldable pub content : Directory → Bytes → Option Bytes
content [] name = none
content ((n, c) ∷ files) name = if str_eq n name then some c else content files name

-- The file `name` gets the content `c`.
unfoldable pub put : Directory → Bytes → Bytes → Directory
put [] name c = (name, c) ∷ []
put ((n, d) ∷ files) name c = if str_eq n name then (n, c) ∷ files else (n, d) ∷ put files name c

unfoldable pub append_to : Directory → Bytes → Bytes → Directory
append_to files name c = elim (content files name) [
  | none ↦ files
  | some d ↦ put files name (d ++ c)
]

-- The size of a file in an `int`; 0 stands for a negative one.
unfoldable pub int_size : ℕ → ℕ
int_size n = let m = n % 2 ^ 32 in if ltb m (2 ^ 31) then m else 0

pub int_size_same : (n : ℕ) → n < 2 ^ 31 → int_size n ≡ n
unfolding int_size
int_size_same n h = ground arith

-- `bytes_received` is the pattern of an `int`, from 2^31 on a negative one.
-- `FileReceiver`; `opened` says that `file` is not NULL. It is then the file `filename`.
pub record FileReceiver : Type 0 where
  pub opened : Bool
  pub filename : Bytes
  pub bytes_received : ℕ
  pub total_size : ℕ
  pub is_receiving : Bool
  pub sender_fd : Option ℕ

pub record Storage : Type 0 where
  pub receiver : FileReceiver
  pub files : Directory

unfoldable pub reset_file_receiver : FileReceiver
reset_file_receiver = record {
  opened = false;
  filename = [];
  bytes_received = 0;
  total_size = 0;
  is_receiving = false;
  sender_fd = none;
}

-- `file_receiver.is_receiving && strcmp(file_receiver.filename, filename) == 0`
unfoldable pub receives : FileReceiver → Bytes → Bool
receives r filename = r.is_receiving && str_eq r.filename filename

-- `start_file_receive`. A name that is taken over is cut off after 255 bytes.
unfoldable pub start_file_receive : Env → Bytes → ℕ → Option ℕ → Storage → Storage
start_file_receive env filename total_size sender_fd s =
    let r = if s.receiver.is_receiving then reset_file_receiver else s.receiver in
    if receives s.receiver filename
    then s
    else if env.fopen_ok filename
    then record {
      receiver = record {
        opened = true;
        filename = take 255 filename;
        bytes_received = 0;
        total_size = total_size;
        is_receiving = true;
        sender_fd = sender_fd;
      };
      files = put s.files filename [];
    }
    else record { receiver = record r { opened = false }; files = s.files }

-- The write of `n` bytes to the open file and the test whether it is complete.
unfoldable pub write_chunk : ℕ → Bytes → Storage → Storage
write_chunk n chunk s =
    let r = s.receiver in
    let received = (r.bytes_received + n) % 2 ^ 32 in
    let files = append_to s.files r.filename chunk in
    if ltb 0 r.total_size && (ltb received (2 ^ 31) && leb r.total_size received)
    then record {
      receiver = record r { bytes_received = received; opened = false; is_receiving = false };
      files = files;
    }
    else record { receiver = record r { bytes_received = received }; files = files }

-- `fwrite` and what follows. `none`: it reads outside of `data`.
unfoldable pub write_data : Bytes → ℤ → Storage → Option Storage
write_data data_ (negsuc n) s = if s.receiver.opened then none else some s
write_data data_ (pos n) s =
    if not s.receiver.opened
    then some s
    else if ltb 4096 n
    then none
    else some (write_chunk n (take n data_) s)

-- `append_file_data`
unfoldable pub append_file_data : Env → Bytes → Bytes → ℤ → Storage → Option Storage
append_file_data env filename data_ data_len s =
    write_data data_ data_len
      (if receives s.receiver filename then s else start_file_receive env filename 0 none s)

-- `finish_file_receive`
unfoldable pub finish_file_receive : Storage → Storage
finish_file_receive s =
    if s.receiver.is_receiving && s.receiver.opened
    then record s { receiver = record s.receiver { opened = false; is_receiving = false } }
    else s

-- The calls of `send_all` for messages to one client; their results are not looked at. `none`: one of them does not
-- come back.
unfoldable pub send_each : Env → ℕ → List Message → Attempts → Option Attempts
send_each env fd [] sent = some sent
send_each env fd (m ∷ messages) sent =
    let rest = send_each env fd messages (sent ++ (fd, m) ∷ []) in
    if env.returns sent fd then rest else none

-- The entries of the list that `list_files_in_storage` writes.
unfoldable pub entries : Directory → Bytes
entries [] = []
entries ((n, c) ∷ files) =
    b' ' ∷ (n ++ codes " (" ++ decimal (length c) ++ codes " bytes)" ++ 10 ∷ entries files)

-- The list, while there is a directory
unfoldable pub file_list : Directory → Bytes
file_list [] =
    codes "   Files on server:" ++ 10 ∷ (codes "No files available" ++ 10 ∷ b' ' ∷ 10 ∷ [])
file_list (f ∷ files) = codes "   Files on server:" ++ 10 ∷ (entries (f ∷ files) ++ b' ' ∷ 10 ∷ [])

-- `list_files_in_storage`. `none`: the `strcat` calls write beyond the buffer of 4096 bytes.
unfoldable pub list_files_in_storage : Directory → Option Bytes
list_files_in_storage files =
    let text = file_list files in if ltb (length text) 4096 then some text else none

-- The blocks that `fread` returns, of `BUFFER_SIZE` bytes each. The fuel is the length of the file.
unfoldable pub blocks : ℕ → Bytes → List Bytes
blocks zero file = []
blocks (suc fuel) [] = []
blocks (suc fuel) (c ∷ file) = take 4096 (c ∷ file) ∷ blocks fuel (drop 4096 (c ∷ file))

unfoldable pub file_message : ℕ → Bytes → Bytes → ℕ → Message
file_message kind filename block total_size = record {
  kind = kind;
  nickname = codes "SERVER";
  data_ = block;
  data_len = pos (length block);
  total_size = total_size;
  filename = take 255 filename;
}

-- The messages of a file, with its size as they give it
unfoldable pub file_messages : Bytes → Bytes → ℕ → List Message
file_messages filename file total_size =
    file_message 4 filename [] total_size
      ∷ map (λ block. file_message 5 filename block total_size) (blocks (length file) file)
    ++ file_message 6 filename [] total_size ∷ []

-- `send_file_to_client`: the messages that it sends; none if there is no such file.
unfoldable pub send_file_to_client : Directory → Bytes → List Message
send_file_to_client files filename = elim (content files filename) [
  | none ↦ []
  | some file ↦ file_messages filename file (int_size (length file))
]

pub send_file_to_client-some :
    (files : Directory) (name file : Bytes)
    → content files name ≡ some file
    → length file < 2 ^ 31
    → send_file_to_client files name ≡ file_messages name file (length file)
unfolding send_file_to_client
send_file_to_client-some files name file h int =
    rw (h, send_file_to_client) (ap (file_messages name file) (int_size_same (length file) int))

-- `data_len > 0`
unfoldable pub is_positive : ℤ → Bool
is_positive (pos n) = ltb 0 n
is_positive (negsuc n) = false

-- What `handle_client_message` does with the files for a message of the client `fd`.
unfoldable pub store_message : Env → ℕ → Message → Storage → Option Storage
store_message env fd msg s =
    let started = start_file_receive env msg.filename msg.total_size (some fd) s in
    if msg.kind == 4
    then (if is_positive msg.data_len
        then append_file_data env msg.filename msg.data_ msg.data_len started
        else some started)
    else if msg.kind == 5
    then append_file_data env msg.filename msg.data_ msg.data_len
        (if receives s.receiver msg.filename then s else started)
    else if msg.kind == 6
    then some (finish_file_receive s)
    else some s

pub record Server : Type 0 where
  pub clients : List Client
  pub sent : Attempts
  pub storage : Storage

-- What `recv` returned: nothing, a part of a message, or a message.
pub data Received : Type 0 where
  closed incomplete : Received
  received : Message → Received

unfoldable pub list_message : Bytes → Message
list_message text = record {
  kind = 9;
  nickname = [];
  data_ = text;
  data_len = pos 0;
  total_size = 0;
  filename = [];
}

unfoldable pub send_back : Env → ℕ → List Message → Room → Option Room
send_back env fd messages (clients, sent) =
    send_each env fd messages sent >>= λ more. some (clients, more)

unfoldable pub send_list : Env → ℕ → Directory → Room → Option Room
send_list env fd files room =
    list_files_in_storage files >>= λ text. send_back env fd (list_message text ∷ []) room

-- The clients and calls of `send_all` after a message. `none`: a write beyond a buffer, or a call that does not
-- come back.
unfoldable pub pass_on : Env → ℕ → Message → Directory → Room → Option Room
pass_on env fd msg files (clients, sent) =
    if msg.kind == 1
    then add_client env fd msg.nickname (clients, sent)
    else if (leb 3 msg.kind) && (leb msg.kind 6)
    then broadcast_message env msg (some fd) (clients, sent)
    else if msg.kind == 2
    then remove_client env fd (clients, sent)
    else if msg.kind == 7
    then send_list env fd files (clients, sent)
    else if msg.kind == 8
    then send_back env fd (send_file_to_client files msg.filename) (clients, sent)
    else some (clients, sent)

-- `handle_client_message`
unfoldable pub handle_client_message : Env → ℕ → Received → Server → Option Server
handle_client_message env fd closed s =
    remove_client env fd (s.clients, s.sent) >>= λ (clients, sent).
    some (record s { clients = clients; sent = sent })
handle_client_message env fd incomplete s = some s
handle_client_message env fd (received msg) s = do
  storage ← store_message env fd msg s.storage
  (clients, sent) ← pass_on env fd msg s.storage.files (s.clients, s.sent)
  some (record { clients = clients; sent = sent; storage = storage })
