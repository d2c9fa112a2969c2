-- ===== src/Chat/Terminal.antt =====
-- The client program of the chat, module3/07/client.c: the files that it receives, the messages that it
-- sends for a line of the user, and what it does with a message of the server. `files` are those of
-- its directory "received_files". The messages that it sends are taken to arrive; fields that it
-- leaves as they were are those of a message `garbage`.
use eltex_summer.Base.{
  ℕ, ◌+◌, ◌%◌, ◌^◌, Bool, false, ◌&&◌, ◌||◌, Option, none, some, List, [], ◌∷◌, ◌++◌, Bytes, codes,
  c_str, str_eq, starts_with, take, drop, map, length, leb, ltb, ◌==◌, if◌then◌else◌, ◌>>=◌,
}
use eltex_summer.Base.Scan.{decimal}
use eltex_summer.Base.Int.{ℤ, pos, negsuc}
use eltex_summer.Chat.{Message, Env}
use eltex_summer.Chat.Files.{
  Directory, content, put, append_to, int_size, blocks, is_positive, Received, closed, incomplete,
  received,
}

-- The static variables of `receive_file`; `opened` says that `file` is not NULL.
pub record Incoming : Type 0 where
  pub current_file : Bytes
  pub opened : Bool
  pub bytes_received : ℕ
  pub total_size : ℕ

pub record Downloads : Type 0 where
  pub incoming : Incoming
  pub files : Directory

-- `fopen(filepath, "wb")` for a new file, and the variables about it
unfoldable pub open_received : Env → Bytes → ℕ → Downloads → Downloads
open_received env filename total_size d = record {
  incoming = record {
    current_file = take 255 filename;
    opened = env.fopen_ok filename;
    bytes_received = 0;
    total_size = total_size;
  };
  files = if env.fopen_ok filename then put d.files (take 255 filename) [] else d.files;
}

-- `fwrite` and the count of the bytes. `none`: it reads outside of `data`.
unfoldable pub write_received : Bytes → ℤ → Downloads → Option Downloads
write_received data_ (negsuc n) d = none
write_received data_ (pos n) d =
    if ltb 4096 n
    then none
    else some (record {
      incoming = record d.incoming { bytes_received = (d.incoming.bytes_received + n) % 2 ^ 32 };
      files = append_to d.files d.incoming.current_file (take n data_);
    })

-- The file is closed when all its bytes are there. A `bytes_received` from 2^31 on stands for a negative number.
unfoldable pub close_complete : Downloads → Downloads
close_complete d =
    let received = d.incoming.bytes_received in
    if ltb received (2 ^ 31) && leb d.incoming.total_size received
    then record d { incoming = record d.incoming { opened = false } }
    else d

-- The file that a block belongs to is opened, unless it is the one that is open.
unfoldable pub open_for_block : Env → Message → Downloads → Downloads
open_for_block env msg d =
    if d.incoming.opened && str_eq d.incoming.current_file msg.filename
    then d
    else open_received env msg.filename msg.total_size d

-- `receive_file` for a message of type MSG_FILE, MSG_FILE_DATA or MSG_FILE_END
unfoldable pub receive_file : Env → Message → Downloads → Option Downloads
receive_file env msg d =
    let started = open_received env msg.filename msg.total_size d in
    let ready = open_for_block env msg d in
    if msg.kind == 4
    then (if started.incoming.opened && is_positive msg.data_len
        then write_received msg.data_ msg.data_len started
        else some started)
    else if msg.kind == 5
    then (if ready.incoming.opened
        then (write_received msg.data_ msg.data_len ready >>= λ w. some (close_complete w))
        else some ready)
    else if msg.kind == 6
    then some (record d { incoming = record d.incoming { opened = false } })
    else some d

-- The messages of `send_file`
unfoldable pub upload_message : Message → Bytes → ℕ → Bytes → ℕ → Message
upload_message garbage nickname kind filename total_size = record garbage {
  kind = kind;
  nickname = take 49 nickname;
  filename = take 255 filename;
  total_size = total_size;
  data_len = pos 0;
}

unfoldable pub upload_block : Message → Bytes → Bytes → ℕ → Bytes → Message
upload_block garbage nickname filename total_size block =
    record (upload_message garbage nickname 5 filename total_size) {
      data_ = block;
      data_len = pos (length block);
    }

-- `send_file`, for the files that the program can open; none without such a file
unfoldable pub send_file : Message → Bytes → Directory → Bytes → List Message
send_file garbage nickname local filename = elim (content local filename) [
  | none ↦ []
  | some file ↦
      let total_size = int_size (length file) in
      upload_message garbage nickname 4 filename total_size
        ∷ map (upload_block garbage nickname filename total_size) (blocks (length file) file)
      ++ upload_message garbage nickname 6 filename total_size ∷ []
]

-- `send_message`
unfoldable pub send_message : Message → Bytes → ℕ → Bytes → Message
send_message garbage nickname kind text = record garbage {
  kind = kind;
  nickname = take 49 nickname;
  data_ = take 4095 text;
  data_len = pos (length text);
  total_size = length text;
}

-- The message of type MSG_JOIN that `main` sends first
unfoldable pub first_message : Message → Bytes → Message
first_message garbage nickname = record garbage {
  kind = 1;
  nickname = take 49 nickname;
  data_len = pos 0;
}

-- `handle_user_input`: the messages for a line, without its newline
unfoldable pub handle_user_input : Message → Bytes → Directory → Bytes → List Message
handle_user_input garbage nickname local [] = []
handle_user_input garbage nickname local (c ∷ line) =
    let input = c ∷ line in
    if c == b'/'
    then (if starts_with input (codes "/file ")
        then send_file garbage nickname local (drop 6 input)
        else if str_eq input (codes "/list")
        then record garbage { kind = 7; nickname = take 49 nickname } ∷ []
        else if starts_with input (codes "/get ")
        then record garbage {
          kind = 8;
          nickname = take 49 nickname;
          filename = take 255 (drop 5 input);
        }
          ∷ []
        else [])
    else send_message garbage nickname 3 input ∷ []

-- What is printed for a message that is not about a file
unfoldable pub shown_message : Bytes → Message → Bytes
shown_message nickname msg =
    if (msg.kind == 1) || (msg.kind == 2)
    then c_str msg.data_ ++ 10 ∷ []
    else if msg.kind == 3
    then (if str_eq msg.nickname nickname
        then []
        else b'[' ∷ msg.nickname ++ codes "]: " ++ c_str msg.data_ ++ 10 ∷ [])
    else if msg.kind == 9
    then 10 ∷ c_str msg.data_ ++ 10 ∷ []
    else codes "Unknown message type: " ++ decimal msg.kind ++ 10 ∷ []

-- `exit`, a read outside of the message, or the text printed of the message and the files
-- afterwards
pub data Reaction : Type 0 where
  exits faults : Reaction
  goes_on : Bytes → Downloads → Reaction

unfoldable pub after_file : Option Downloads → Reaction
after_file none = faults
after_file (some d) = goes_on [] d

-- `handle_server_message`
unfoldable pub handle_server_message : Env → Bytes → Received → Downloads → Reaction
handle_server_message env nickname closed d = exits
handle_server_message env nickname incomplete d = goes_on [] d
handle_server_message env nickname (received msg) d =
    if leb 4 msg.kind && leb msg.kind 6
    then after_file (receive_file env msg d)
    else goes_on (shown_message nickname msg) d
