-- ===== src/Chat/Delivery.antt =====
-- Who gets a message that is passed on.
use mathlib.Core.List.{append_assoc, append-nil}
use eltex_summer.Base.{
  ℕ, zero, suc, ◌+◌, ◌<◌, ◌≡◌, refl, ap, inl, inr, sym, true, Option, none, some, List, [], ◌∷◌,
  ◌++◌, map, get_elem?, length, length-append, if◌then◌else◌, Bool-cases, arith,
}
use eltex_summer.Chat.{
  Message, Client, Env, Returning, Attempts, is_sender, offer, broadcast_from, broadcast_fuel,
  broadcast_message,
}

-- The calls of `send_all` for a message: one for each client but the sender.
pub deliveries : Message → Option ℕ → List Client → Attempts
deliveries msg sender [] = []
deliveries msg sender (c ∷ clients) =
    if is_sender sender c.fd
    then deliveries msg sender clients
    else (c.fd, msg) ∷ deliveries msg sender clients

pub deliveries-everyone :
    (msg : Message) (clients : List Client)
    → deliveries msg none clients ≡ map (λ c. (c.fd, msg)) clients
unfolding deliveries is_sender
deliveries-everyone msg [] = refl
deliveries-everyone msg (c ∷ clients) = ap (λ l. (c.fd, msg) ∷ l) (deliveries-everyone msg clients)

get_elem?_middle :
    (xs : List Client) (y : Client) (ys : List Client)
    → get_elem? (xs ++ y ∷ ys) (length xs) ≡ some y
get_elem?_middle [] y ys = refl
get_elem?_middle (x ∷ xs) y ys = get_elem?_middle xs y ys

get_elem?_end : (xs : List Client) → get_elem? xs (length xs) ≡ none
get_elem?_end [] = refl
get_elem?_end (x ∷ xs) = get_elem?_end xs

broadcast_from-deliveries :
    (env : Env) (fuel : ℕ) (msg : Message) (sender : Option ℕ) (xs ys : List Client)
    (sent : Attempts)
    → Returning env
    → ((s : Attempts) (fd : ℕ) → env.accepts s fd ≡ true)
    → length ys < fuel
    → broadcast_from env fuel msg sender (length xs) (xs ++ ys, sent)
      ≡ some (xs ++ ys, sent ++ deliveries msg sender ys)
unfolding broadcast_from offer deliveries
broadcast_from-deliveries env zero msg sender xs ys sent back ok h = absurd (omega arith)
broadcast_from-deliveries env (suc fuel) msg sender xs [] sent back ok h =
    rw (append-nil xs, append-nil sent, get_elem?_end xs, broadcast_from, append-nil xs)
broadcast_from-deliveries env (suc fuel) msg sender xs (y ∷ ys) sent back ok h =
    elim (Bool-cases (is_sender sender y.fd)) [
      | inl own ↦
          rw (get_elem?_middle xs y ys, broadcast_from, own, offer, next, behind)
            (broadcast_from-deliveries env fuel msg sender (xs ++ y ∷ []) ys sent back ok
              (omega arith))
      | inr other ↦
          rw
            (
              get_elem?_middle xs y ys,
              broadcast_from,
              other,
              offer,
              back sent y.fd,
              ok sent y.fd,
              next,
              behind,
              later,
            )
            (broadcast_from-deliveries env fuel msg sender (xs ++ y ∷ []) ys
              (sent ++ (y.fd, msg) ∷ []) back ok (omega arith))
    ]
  where
    next : length xs + 1 ≡ length (xs ++ y ∷ [])
    next = omega (arith, length-append xs (y ∷ []))

    behind : xs ++ y ∷ ys ≡ (xs ++ y ∷ []) ++ ys
    behind = sym (append_assoc xs (y ∷ []) ys)

    later :
        sent ++ (y.fd, msg) ∷ deliveries msg sender ys
        ≡ (sent ++ (y.fd, msg) ∷ []) ++ deliveries msg sender ys
    later = sym (append_assoc sent ((y.fd, msg) ∷ []) (deliveries msg sender ys))

-- If all calls of `send_all` come back and succeed, each client but the sender gets the message once, in the order of the
-- table, and nobody is removed.
pub broadcast_message-deliveries :
    (env : Env) (msg : Message) (sender : Option ℕ) (clients : List Client) (sent : Attempts)
    → Returning env
    → ((s : Attempts) (fd : ℕ) → env.accepts s fd ≡ true)
    → broadcast_message env msg sender (clients, sent)
      ≡ some (clients, sent ++ deliveries msg sender clients)
unfolding broadcast_message
broadcast_message-deliveries env msg sender clients sent back ok =
    broadcast_from-deliveries env (broadcast_fuel (length clients)) msg sender [] clients sent back
      ok (omega arith)
