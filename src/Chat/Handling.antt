-- ===== src/Chat/Handling.antt =====
-- The handler of messages returns, with the clients that it keeps.
use mathlib.Core.List.{Sublistᴰ}
use mathlib.Core.List.Sublistᴰ
use eltex_summer.Base.{
  ℕ, ◌≤◌, ◌<◌, ◌≡◌, refl, Bool, true, false, not, Option, some, List, [], ◌∷◌, length, take, ltb,
  ◌==◌, if◌then◌else◌, arith,
}
use eltex_summer.Base.Int.{ℤ, pos, negsuc}
use eltex_summer.Chat.{Message, Client, Env}
use eltex_summer.Chat.Files.{
  Storage, Received, closed, incomplete, received, write_data, write_chunk, append_file_data,
  is_positive, store_message, file_list, Directory,
}

-- The length that a message gives for its data fits the buffer.
abbrev pub FitsBuffer : ℤ → Type 0
FitsBuffer (pos n) = n ≤ 4096
FitsBuffer (negsuc n) = ⊥

abbrev pub WellFormed : Received → Type 0
WellFormed closed = Unit
WellFormed incomplete = Unit
WellFormed (received msg) = FitsBuffer msg.data_len

-- The client that a JOIN message brings in.
unfoldable pub newcomer : ℕ → Received → List Client
newcomer fd closed = []
newcomer fd incomplete = []
newcomer fd (received msg) =
    if msg.kind == 1 then record { fd = fd; nickname = take 49 msg.nickname } ∷ [] else []

if_returns :
    (b : Bool) (r q : Option Storage)
    → ((s : Storage) × (r ≡ some s))
    → ((s : Storage) × (q ≡ some s))
    → (s : Storage) × ((if b then r else q) ≡ some s)
if_returns true r q h k = h
if_returns false r q h k = k

write_data_returns :
    (data_ : List ℕ) (n : ℤ) (s : Storage)
    → FitsBuffer n
    → (s' : Storage) × (write_data data_ n s ≡ some s')
unfolding write_data
write_data_returns data_ (negsuc n) s h = absurd h
write_data_returns data_ (pos n) s h =
    let small : ltb 4096 n ≡ false = ground arith in
    if_returns (not s.receiver.opened) (some s) _ (s, refl)
      (write_chunk n (take n data_) s, rw small)

pub store_message_returns :
    (env : Env) (fd : ℕ) (msg : Message) (s : Storage)
    → FitsBuffer msg.data_len
    → (s' : Storage) × (store_message env fd msg s ≡ some s')
unfolding store_message append_file_data
store_message_returns env fd msg s h =
    if_returns (msg.kind == 4) _ _
      (if_returns (is_positive msg.data_len) _ _ (write_data_returns msg.data_ msg.data_len _ h)
        (_, refl))
      (if_returns (msg.kind == 5) _ _ (write_data_returns msg.data_ msg.data_len _ h)
        (if_returns (msg.kind == 6) _ _ (_, refl) (_, refl)))

-- The length of the list of files, where a message asks for it, fits the buffer.
abbrev pub FitsList : Received → Directory → Type 0
FitsList closed files = Unit
FitsList incomplete files = Unit
FitsList (received msg) files = (msg.kind ≡ 7) → length (file_list files) < 4096
