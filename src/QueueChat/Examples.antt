-- ===== src/QueueChat/Examples.antt =====
-- Queues as sorted lists, and two processes that chat over them.
use eltex_summer.Base.{
  ℕ, ◌≤◌, ◌≡◌, ◌≢◌, ◌↔◌, refl, inr, Bool, true, false, Option, none, some, List, [], ◌∷◌, ◌++◌, map,
  codes, cut_at, str_eq, length, arith,
}
use eltex_summer.Contacts.Input.{fgets, read_line}
use eltex_summer.QueueChat.{
  Message, normal_message, exit_message, place, MessageQueues, PeerAt, Peer, send_message,
  is_command, handle_input, go_on, kept_line, cut_newline, read_user_input, look, type_line,
  step_at, step, Turn, of_creator, of_joiner, cut_creator, System, turn, run, started, Opened,
  Openings, init_queues, cleanup_queues,
}
use eltex_summer.QueueChat.Places.{lines}
use eltex_summer.QueueChat.Delivery.{IsCarried, started_system, run-IsCarried}
use eltex_summer.QueueChat.Ends.{Answers, alone, exit_hides}
use eltex_summer.QueueChat.Drain.{two_each, run-drained}
use eltex_summer.QueueChat.Names.{init_queues-crossed}

abbrev first_of : List Message → Option (Message × List Message)
first_of [] = none
first_of (m ∷ q) = some (m, q)

first_of_lem : (q q' : List Message) (m : Message) → first_of q ≡ some (m, q') → q ≡ m ∷ q'
first_of_lem [] q' m e = absurd (cc)
first_of_lem (x ∷ q) q' m e = cc

placed_lem :
    (q q' : List Message) (m : Message)
    → ◌≡◌ {A = Option (List Message)} (some (place m q)) (some q')
    → q' ≡ place m q
placed_lem q q' m e = cc

counted_lem :
    (q : List Message) (n : ℕ) → ◌≡◌ {A = Option ℕ} (some (length q)) (some n) → n ≡ length q
counted_lem q n e = cc

abbrev sorted_queues : MessageQueues
sorted_queues = record {
  Queue = List Message;
  contents = λ q. q;
  mq_send = λ q m. some (place m q);
  mq_receive = first_of;
  mq_curmsgs = λ q. some (length q);
  placed = placed_lem;
  received = first_of_lem;
  counted = counted_lem;
}

first_of-some : (q : List Message) → q ≢ [] → (r : Message × List Message) × (first_of q ≡ some r)
first_of-some [] ne = absurd (ne refl)
first_of-some (m ∷ q) ne = ((m, q), refl)

sorted_queues-Answers : Answers sorted_queues
sorted_queues-Answers = record { receives = first_of-some; counts = λ q. (length q, refl) }

-- The second process sends "hi".
abbrev greeting : List Turn
greeting = of_joiner false ∷ (of_joiner true ∷ [])

abbrev at_start : System (List Message)
at_start = started_system sorted_queues (started [] []) (started [] (codes "hi" ++ 10 ∷ [])) [] []

abbrev greeted : System (List Message)
greeted = run sorted_queues greeting at_start

-- SIGINT comes to the first process when it has received the line.
abbrev cut_short : List Turn
cut_short = of_joiner false ∷ (of_joiner true ∷ (of_creator false ∷ (cut_creator ∷ [])))

run-IsCarried_example : IsCarried sorted_queues (run sorted_queues cut_short at_start)
run-IsCarried_example =
    run-IsCarried sorted_queues cut_short [] [] [] (codes "hi" ++ 10 ∷ []) [] [] refl refl

run-drained_example :
    (run sorted_queues
      (map of_creator (false ∷ two_each false greeted.queue_1))
      greeted).creator.shown
    ≡ greeted.joiner.sent
unfolding run turn step step_at look type_line handle_input go_on read_user_input fgets read_line
    cut_at kept_line cut_newline is_command str_eq send_message place
run-drained_example =
    run-drained sorted_queues sorted_queues-Answers greeting false [] [] [] (codes "hi" ++ 10 ∷ [])
      [] [] greeted refl refl refl refl refl (refl, tt)

abbrev reader : Peer
reader = record (started [] []) { at = PeerAt.taking }

abbrev told : List Message
told = place exit_message (normal_message (codes "hi") ∷ [])

exit_hides_example :
    ((alone sorted_queues (false ∷ (false ∷ (false ∷ []))) reader told []).0.at ≡ PeerAt.over)
    × ((alone sorted_queues (false ∷ (false ∷ (false ∷ []))) reader told []).0.shown ≡ [])
    × (lines (alone sorted_queues (false ∷ (false ∷ (false ∷ []))) reader told []).1
        ≡ lines (normal_message (codes "hi") ∷ []))
exit_hides_example =
    exit_hides sorted_queues reader (normal_message (codes "hi") ∷ []) told [] false false false
      sorted_queues-Answers
      (inr (codes "hi", refl, (omega arith, (omega arith, tt)), omega arith), tt) refl refl

abbrev opens : Bool → Openings
opens excl = record { excl = excl; second = true; existing_1 = true; existing_2 = true }

init_queues-crossed_example :
    (creator joiner : Opened) × (init_queues (codes "room") (opens true) ≡ (some creator, []))
    × (init_queues (codes "room") (opens false) ≡ (some joiner, []))
    × (creator.queue_send ≡ joiner.queue_recv)
    × (joiner.queue_send ≡ creator.queue_recv)
    × ((creator.queue_send ≡ creator.queue_recv) ↔ (61 ≤ length (codes "room")))
    × (cleanup_queues (codes "room") creator ≡ creator.queue_recv ∷ (creator.queue_send ∷ []))
    × (cleanup_queues (codes "room") joiner ≡ [])
init_queues-crossed_example =
    init_queues-crossed (codes "room") (opens true) (opens false) refl refl refl refl refl
