-- ===== src/Taxi/Examples.antt =====
-- A driver with a task of a minute, and a dispatcher with two drivers.
use eltex_summer.Base.{ℕ, ◌<◌, ◌≤◌, ◌≡◌, refl, true, false, not, some, List, [], ◌∷◌, codes, arith}
use eltex_summer.Base.Int.{pos, int_eq}
use eltex_summer.Base.Scan.{decimal}
use eltex_summer.Taxi.{DriverInfo, World, end_task, busy_reply, serve_request, task_request}
use eltex_summer.Taxi.Commands.{words, is_blank, add_byte, begins_word}
use eltex_summer.Taxi.Driver.{serve_request_task}

serve_request_task_example :
    (serve_request 7 7 8 (task_request 60) 5
      ≡ record { response = codes "OK"; busy_until = 68; running = true })
    × ((s t u : ℕ)
        → s ≤ t
        → t < 68
        → serve_request s t u (task_request 9) 68
          ≡ record { response = busy_reply u 68; busy_until = 68; running = true })
    × ((s t u : ℕ)
        → 68 ≤ s
        → serve_request s t u (codes "STATUS") 68
          ≡ record { response = codes "AVAILABLE"; busy_until = 0; running = true })
unfolding end_task decimal
serve_request_task_example =
    serve_request_task 7 7 8 60 9 5 (omega arith) (omega arith) (omega arith) refl

-- One driver, and a free entry.
abbrev table : List DriverInfo
table = record { pid = pos 41; active = true } ∷ record { pid = pos 0; active = false } ∷ []

abbrev both : List DriverInfo
both = record { pid = pos 41; active = true } ∷ record { pid = pos 42; active = true } ∷ []

-- Process 41 has died.
abbrev world : World
world = record {
  alive = λ p. not (int_eq p (pos 41));
  reply = λ p request. some (codes "AVAILABLE");
}

words_of_line : words (codes " send_task  41 9") ≡ codes "send_task" ∷ codes "41" ∷ codes "9" ∷ []
unfolding words is_blank add_byte begins_word
words_of_line = refl
