-- ===== src/Chat/Loop.antt =====
-- module3/07/chat_utils.c, `send_all`, and the loop of `main` in server.c on what `epoll_wait` gives.
use eltex_summer.Base.{
  ℕ, zero, suc, ◌≤◌, ◌≡◌, ◌≢◌, ◌↔◌, refl, ap, ◌∙◌, Bool, true, false, Option, none, some, List, [],
  ◌∷◌, ◌++◌, Bytes, length, take, drop, take-append-drop, All, ◌>>=◌,
}
use mathlib.Core.List.{append_assoc}
use eltex_summer.Chat.{Env}
use eltex_summer.Chat.Files.{Server, Received, closed, incomplete, received, handle_client_message}
use eltex_summer.Chat.Handling.{WellFormed}

-- What `send` returns: how many bytes it took, EAGAIN, another error
pub data Sent : Type 0 where
  took : ℕ → Sent
  again failed : Sent

-- The result 0 or -1, or `none` while `send` has not returned often enough; and the bytes taken so far
unfoldable pub send_all : Bytes → List Sent → Option Bool × Bytes
send_all [] results = (some true, [])
send_all (b ∷ buf) [] = (none, [])
send_all (b ∷ buf) (again ∷ results) = send_all (b ∷ buf) results
send_all (b ∷ buf) (failed ∷ results) = (some false, [])
send_all (b ∷ buf) (took zero ∷ results) = (some false, [])
send_all (b ∷ buf) (took (suc n) ∷ results) =
    let (r, out) = send_all (drop (suc n) (b ∷ buf)) results in (r, take (suc n) (b ∷ buf) ++ out)

-- Whatever `send` returns, the bytes that it has taken are the front of the buffer, each once and in order, and
-- `send_all` returns 0 exactly when they are all of it.
pub send_all-append :
    (buf : Bytes) (results : List Sent)
    → (rest : Bytes) × ((send_all buf results).1 ++ rest ≡ buf)
      × (((send_all buf results).0 ≡ some true) ↔ (rest ≡ []))
unfolding send_all
send_all-append [] results = ([], refl, ((λ e. refl), λ e. refl))
send_all-append (b ∷ buf) [] = (b ∷ buf, refl, ((λ e. absurd (cc)), λ e. absurd (cc)))
send_all-append (b ∷ buf) (again ∷ results) = send_all-append (b ∷ buf) results
send_all-append (b ∷ buf) (failed ∷ results) =
    (b ∷ buf, refl, ((λ e. absurd (cc)), λ e. absurd (cc)))
send_all-append (b ∷ buf) (took zero ∷ results) =
    (b ∷ buf, refl, ((λ e. absurd (cc)), λ e. absurd (cc)))
send_all-append (b ∷ buf) (took (suc n) ∷ results) =
    let left : Bytes = drop (suc n) (b ∷ buf) in
    let (rest, e, done) = send_all-append left results in
    (
      rest,
      append_assoc (take (suc n) (b ∷ buf)) (send_all left results).1 rest
          ∙ ap (λ l. take (suc n) (b ∷ buf) ++ l) e
          ∙ take-append-drop (suc n) (b ∷ buf),
      done,
    )

-- What `epoll_wait` reports of a socket: a new connection, or something to read from a client
pub data Ready : Type 0 where
  connection : Ready
  readable : ℕ → Received → Ready

pub data Wait : Type 0 where
  interrupted failed : Wait
  ready : List Ready → Wait

-- The inner loop; a new connection is only a socket until its JOIN.
unfoldable pub handle_ready : Env → List Ready → Server → Option Server
handle_ready env [] s = some s
handle_ready env (connection ∷ events) s = handle_ready env events s
handle_ready env (readable fd r ∷ events) s =
    handle_client_message env fd r s >>= λ s'. handle_ready env events s'

-- The loop of `main`
unfoldable pub server_loop : Env → List Wait → Server → Option Server
server_loop env [] s = some s
server_loop env (interrupted ∷ waits) s = server_loop env waits s
server_loop env (failed ∷ waits) s = some s
server_loop env (ready events ∷ waits) s =
    handle_ready env events s >>= λ s'. server_loop env waits s'

-- The server after an event, with at most 100 clients
pub record IsServed (r : Option Server) : Type 0 where
  pub server : Server
  pub returned : r ≡ some server
  pub bounded : length server.clients ≤ 100

-- No request for the list of the files, whose length the server does not bound
abbrev pub AsksNoList : Received → Type 0
AsksNoList closed = Unit
AsksNoList incomplete = Unit
AsksNoList (received msg) = msg.kind ≢ 7

abbrev pub WellFormedReady : Ready → Type 0
WellFormedReady connection = Unit
WellFormedReady (readable fd r) = WellFormed r × AsksNoList r

abbrev pub WellFormedWait : Wait → Type 0
WellFormedWait interrupted = Unit
WellFormedWait failed = Unit
WellFormedWait (ready events) = All WellFormedReady events
