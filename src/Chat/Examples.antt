-- ===== src/Chat/Examples.antt =====
-- The chat server with three clients and a small file.
use mathlib.Core.List.{Sublistᴰ}
use eltex_summer.Base.{
  ◌≡◌, ◌↔◌, none, refl, true, false, some, List, [], ◌∷◌, ◌++◌, Bytes, codes, str_eq, ◌==◌, not,
  arith,
}
use eltex_summer.Base.Int.{pos}
use eltex_summer.Chat.{Message, Client, Env}
use eltex_summer.Chat.Files.{
  Directory, Storage, Server, content, receives, reset_file_receiver, send_file_to_client,
}
use eltex_summer.Chat.Loop.{took, again, send_all, send_all-append}
use eltex_summer.Chat.Shutdown.{
  DirectoryCalls, Ended, signal_handler, content_in, left_content, signal_handler-Sublistᴰ,
}
use eltex_summer.Chat.Uploads.{store_all}
use eltex_summer.Chat.Terminal.{Downloads, send_file}
use eltex_summer.Chat.Exchange.{receive_all, receive_all-send_file_to_client, receive_all-store_all}

abbrev three_clients : List Client
three_clients =
    record { fd = 5; nickname = codes "ann" }
    ∷ record { fd = 6; nickname = codes "bob" }
    ∷ record { fd = 7; nickname = codes "cat" }
    ∷ []

abbrev all_accept : Env
all_accept = record { returns = λ s fd. true; accepts = λ s fd. true; fopen_ok = λ name. true }

-- The socket 6 is broken.
abbrev bob_gone : Env
bob_gone = record {
  returns = λ s fd. true;
  accepts = λ s fd. not (fd == 6);
  fopen_ok = λ name. true;
}

abbrev greeting : Message
greeting = record {
  kind = 3;
  nickname = codes "ann";
  data_ = codes "hello";
  data_len = pos 0;
  total_size = 0;
  filename = [];
}

abbrev empty_storage : Storage
empty_storage = record { receiver = reset_file_receiver; files = [] }

abbrev server : Server
server = record { clients = three_clients; sent = []; storage = empty_storage }

abbrev notes : Bytes
notes = codes "notes"

abbrev one_file : Directory
one_file = (notes, codes "some text") ∷ []

-- A request for the list of the files
abbrev asking : Message
asking = record greeting { kind = 7 }

abbrev keeping : Server
keeping = record server { storage = record empty_storage { files = one_file } }

abbrev no_downloads : Downloads
no_downloads = record {
  incoming = record { current_file = []; opened = false; bytes_received = 0; total_size = 0 };
  files = [];
}

receive_all-store_all_example :
    (stored : Storage) × (store_all all_accept 5
        (send_file greeting (codes "ann") one_file notes)
        empty_storage
      ≡ some stored)
    × (after : Downloads) × (receive_all all_accept
          (send_file_to_client stored.files notes)
          no_downloads
        ≡ some after)
    × (content after.files notes ≡ some (codes "some text"))
unfolding content str_eq receives reset_file_receiver
receive_all-store_all_example =
    receive_all-store_all all_accept all_accept greeting (codes "ann") 5 one_file notes
      (codes "some text") empty_storage no_downloads refl (omega arith) (omega arith) (omega arith)
      refl refl refl

-- All files but one can be removed.
abbrev notes_stay : DirectoryCalls
notes_stay = record {
  mkdir_ok = true;
  opendir_ok = true;
  rmdir_ok = true;
  removes = λ name. not (str_eq name notes);
}

-- Two files, one of them still open
abbrev two_files : Directory
two_files = (codes "old", codes "text") ∷ one_file

abbrev stopping : Server
stopping = record server {
  storage = record {
    receiver = record reset_file_receiver { opened = true; filename = notes; is_receiving = true };
    files = two_files;
  };
}

signal_handler-Sublistᴰ_example :
    (e : Ended) × (signal_handler bob_gone notes_stay greeting stopping ≡ some e)
    × Sublistᴰ e.clients three_clients
    × (e.receiver.opened ≡ false)
    × ((name : Bytes)
        → content_in e.directory name ≡ left_content notes_stay name (content two_files name))
signal_handler-Sublistᴰ_example =
    signal_handler-Sublistᴰ bob_gone notes_stay greeting stopping (λ sent fd. refl)

-- A file that one client is sent
receive_all-send_file_to_client_example :
    (after : Downloads) × (receive_all all_accept (send_file_to_client one_file notes) no_downloads
      ≡ some after)
    × (after.incoming.opened ≡ false)
    × (content after.files notes ≡ some (codes "some text"))
    × ((n : Bytes) → str_eq notes n ≡ false → content after.files n ≡ none)
unfolding content str_eq
receive_all-send_file_to_client_example =
    receive_all-send_file_to_client all_accept one_file notes (codes "some text") no_downloads refl
      (omega arith) (omega arith) refl

-- Two bytes, EAGAIN, then the rest
send_all-append_example :
    (rest : Bytes) × ((send_all (codes "hello") (took 2 ∷ (again ∷ (took 3 ∷ [])))).1 ++ rest
      ≡ codes "hello")
    × (((send_all (codes "hello") (took 2 ∷ (again ∷ (took 3 ∷ [])))).0 ≡ some true) ↔ (rest ≡ []))
send_all-append_example = send_all-append (codes "hello") (took 2 ∷ (again ∷ (took 3 ∷ [])))
