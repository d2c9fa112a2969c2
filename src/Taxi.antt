-- ===== src/Taxi.antt =====
-- module3/cross2: the taxi dispatcher (taxi.c) and the process of one driver (driver.c). Times are
-- seconds. The field `status` of both programs is never read, nor are `fd`, `remaining_time` and
-- `busy_until` of the dispatcher's table.
pub mod Driver
pub mod Commands
pub mod Table
mod Examples
use eltex_summer.Base.{
  ℕ, zero, suc, ◌+◌, ◌-◌, Bool, true, false, not, ◌||◌, ◌&&◌, Option, none, some, List, [], ◌∷◌,
  ◌++◌, Bytes, codes, c_str, cut_at, str_eq, starts_with, take, drop, get_elem?, map, length, leb,
  ltb, ◌==◌, if◌then◌else◌, ◌>>=◌,
}
use eltex_summer.Base.Int.{ℤ, pos, negsuc, int_eq, to_int}
use eltex_summer.Base.Scan.{atoi_int, decimal}

-- The check for a finished task, in each round of the driver's loop.
unfoldable pub end_task : ℕ → ℕ → ℕ
end_task now busy_until = if ltb 0 busy_until && leb busy_until now then 0 else busy_until

-- `busy_until > 0 && time(NULL) < busy_until`
unfoldable pub is_busy : ℕ → ℕ → Bool
is_busy now busy_until = ltb 0 busy_until && ltb now busy_until

-- `if (left < 0) left = 0`
unfoldable pub not_negative : ℤ → ℕ
not_negative (pos n) = n
not_negative (negsuc n) = 0

-- `snprintf(response, …, "BUSY %d", left)`, where `left` is an `int`. A negative difference becomes 0.
unfoldable pub busy_reply : ℕ → ℕ → Bytes
busy_reply now busy_until =
    codes "BUSY " ++ decimal (not_negative (to_int (pos (busy_until - now))))

-- What a driver answers, and its `busy_until` and `running` afterwards.
pub record Answer : Type 0 where
  pub response : Bytes
  pub busy_until : ℕ
  pub running : Bool

-- The branch for "TASK", once the number is read.
unfoldable pub take_task : ℕ → ℕ → ℤ → ℕ → Answer
take_task now later (negsuc n) busy_until = record {
  response = if is_busy now busy_until then busy_reply later busy_until else codes "OK";
  busy_until = busy_until;
  running = true;
}
take_task now later (pos n) busy_until =
    if is_busy now busy_until
    then record { response = busy_reply later busy_until; busy_until = busy_until; running = true }
    else if n == 0
    then record { response = codes "OK"; busy_until = busy_until; running = true }
    else record { response = codes "OK"; busy_until = later + n; running = true }

-- The answer to the request in `buf`. The clock shows `now` at the test and `later` behind it.
unfoldable pub answer_request : ℕ → ℕ → Bytes → ℕ → Answer
answer_request now later buf busy_until =
    let request = cut_at 10 (c_str (take 63 buf)) in
    if str_eq request (codes "STATUS")
    then record {
      response = if is_busy now busy_until then busy_reply later busy_until else codes "AVAILABLE";
      busy_until = busy_until;
      running = true;
    }
    else if starts_with request (codes "TASK ")
    then take_task now later (atoi_int (drop 5 request)) busy_until
    else if str_eq request (codes "QUIT")
    then record { response = codes "OK"; busy_until = busy_until; running = false }
    else record { response = codes "UNKNOWN"; busy_until = busy_until; running = true }

-- One round of the driver's loop with a request in it. The clock shows `start` at the first check.
unfoldable pub serve_request : ℕ → ℕ → ℕ → Bytes → ℕ → Answer
serve_request start now later buf busy_until =
    answer_request now later buf (end_task start busy_until)

-- `snprintf(req, …, "TASK %d", seconds)`, of an `int`
unfoldable pub task_text : ℤ → Bytes
task_text (pos n) = codes "TASK " ++ decimal n
task_text (negsuc n) = codes "TASK -" ++ decimal (suc n)

-- The request for a number of seconds that is put into an `int`
unfoldable pub task_request : ℕ → Bytes
task_request seconds = task_text (to_int (pos seconds))

-- `DriverInfo`
pub record DriverInfo : Type 0 where
  pub pid : ℤ
  pub active : Bool

-- The loop of `create_driver` for the new process `pid`. `none`: the table is full.
unfoldable pub enter_driver : List DriverInfo → ℤ → Option (List DriverInfo)
enter_driver [] pid = none
enter_driver (d ∷ drivers) pid =
    if not d.active
    then some (record { pid = pid; active = true } ∷ drivers)
    else elim (enter_driver drivers pid) [ none ↦ none | some ds ↦ some (d ∷ ds) ]

-- `create_driver`: `forked` is the new process, or `none` where `fork` fails.
unfoldable pub create_driver : Option ℤ → List DriverInfo → List DriverInfo
create_driver none drivers = drivers
create_driver (some pid) drivers = elim (enter_driver drivers pid) [ none ↦ drivers | some ds ↦ ds ]

-- `find_driver(pid) != NULL`
unfoldable pub find_driver : List DriverInfo → ℤ → Bool
find_driver [] pid = false
find_driver (d ∷ drivers) pid = (d.active && int_eq d.pid pid) || find_driver drivers pid

-- `remove_driver`
unfoldable pub remove_driver : List DriverInfo → ℤ → List DriverInfo
remove_driver [] pid = []
remove_driver (d ∷ drivers) pid =
    if d.active && int_eq d.pid pid
    then record d { active = false } ∷ drivers
    else d ∷ remove_driver drivers pid

-- What the dispatcher finds out about a process: whether it lives, and what it replies to a request,
-- if it can be reached and replies in time.
pub record World : Type 0 where
  pub alive : ℤ → Bool
  pub reply : ℤ → Bytes → Option Bytes

-- What the dispatcher prints on a command for one driver.
pub data Report : Type 0 where
  not_found dead unavailable : Report
  sent available : Report
  busy : Bytes → Report
  other : Bytes → Report

-- `do_send_task` and `do_get_status` differ in the request and in the reply that means success.
unfoldable pub read_reply : Bytes → Report → Option Bytes → Report
read_reply success report none = unavailable
read_reply success report (some reply) =
    if str_eq reply success
    then report
    else if starts_with reply (codes "BUSY ")
    then busy (drop 5 reply)
    else other reply

unfoldable pub ask_driver :
    World → Bytes → Bytes → Report → List DriverInfo → ℤ → List DriverInfo × Report
ask_driver world request success report drivers pid =
    if not (find_driver drivers pid)
    then (drivers, not_found)
    else if not (world.alive pid)
    then (remove_driver drivers pid, dead)
    else (drivers, read_reply success report (world.reply pid request))

unfoldable pub do_send_task : World → ℤ → ℤ → List DriverInfo → List DriverInfo × Report
do_send_task world pid seconds drivers =
    ask_driver world (task_text seconds) (codes "OK") sent drivers pid

unfoldable pub do_get_status : World → ℤ → List DriverInfo → List DriverInfo × Report
do_get_status world pid drivers =
    ask_driver world (codes "STATUS") (codes "AVAILABLE") available drivers pid

-- The loop of `do_get_drivers` for `n` entries from entry `i` on: the table and the reports so far.
unfoldable pub get_from :
    World → ℕ → ℕ → List DriverInfo → List (ℤ × Report) → List DriverInfo × List (ℤ × Report)
get_from world zero i drivers reports = (drivers, reports)
get_from world (suc n) i drivers reports = elim (get_elem? drivers i) [
  | none ↦ (drivers, reports)
  | some d ↦ elim (d.active && not (world.alive d.pid)) [
    | true ↦ get_from world n (i + 1) (remove_driver drivers d.pid) (reports ++ (d.pid, dead) ∷ [])
    | false ↦ get_from world n (i + 1) drivers (
        if d.active
        then reports
          ++ (d.pid, read_reply (codes "AVAILABLE") available (world.reply d.pid (codes "STATUS")))
            ∷ []
        else reports)
  ]
]

unfoldable pub get_drivers : World → List DriverInfo → List DriverInfo × List (ℤ × Report)
get_drivers world drivers = get_from world (length drivers) 0 drivers []

-- `shutdown_all`: the table afterwards and the processes that are asked to quit, in order.
unfoldable pub shutdown_all : List DriverInfo → List DriverInfo × List ℤ
shutdown_all [] = ([], [])
shutdown_all (d ∷ drivers) =
    let (rest, quit) = shutdown_all drivers in
    if d.active then (record d { active = false } ∷ rest, d.pid ∷ quit) else (d ∷ rest, quit)
