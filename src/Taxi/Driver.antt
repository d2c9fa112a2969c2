-- ===== src/Taxi/Driver.antt =====
-- The promise of a driver: a task keeps it busy until its deadline.
use eltex_summer.Base.{
  take_all, All-append, ◌≢◌, ℕ, ◌+◌, ◌^◌, ◌<◌, ◌≤◌, ◌≡◌, refl, ap, ◌∙◌, Bool, true, false, ◌++◌,
  Bytes, codes, c_str, cut_at, cut_at_of_Without, Without, str_eq, starts_with, take, drop, ltb,
  ◌==◌, if◌then◌else◌, arith,
}
use eltex_summer.Base.Int.{ℤ, pos, negsuc, to_int-pos}
use eltex_summer.Base.Scan.{
  atoi_int, decimal, atoi_int-decimal, length-decimal, decimal-Without, is_digit,
}
use eltex_summer.Taxi.{
  Answer, end_task, is_busy, busy_reply, take_task, answer_request, serve_request, task_text,
  task_request,
}

take_task-deadline :
    (now later : ℕ) (seconds : ℤ) (b : ℕ)
    → is_busy now b ≡ true
    → (take_task now later seconds b).busy_until ≡ b
unfolding take_task
take_task-deadline now later (negsuc n) b h = refl
take_task-deadline now later (pos n) b h = rw h

if_busy_until :
    (c : Bool) (r q : Answer) (b : ℕ)
    → r.busy_until ≡ b
    → q.busy_until ≡ b
    → (if c then r else q).busy_until ≡ b
if_busy_until true r q b h k = h
if_busy_until false r q b h k = k

answer_request-deadline :
    (now later b : ℕ) (buf : Bytes)
    → is_busy now b ≡ true
    → (answer_request now later buf b).busy_until ≡ b
unfolding answer_request
answer_request-deadline now later b buf busy =
    let request : Bytes = cut_at 10 (c_str (take 63 buf)) in
    if_busy_until (str_eq request (codes "STATUS")) _ _ b refl (
      if_busy_until (starts_with request (codes "TASK ")) _ _ b
        (take_task-deadline now later (atoi_int (drop 5 request)) b busy)
        (if_busy_until (str_eq request (codes "QUIT")) _ _ b refl refl))

end_task_early : (start b : ℕ) → start < b → end_task start b ≡ b
unfolding end_task
end_task_early start b h = ground arith

-- While a driver is busy no request moves its deadline.
pub serve_request-deadline :
    (start now later b : ℕ) (buf : Bytes)
    → start ≤ now
    → is_busy now b ≡ true
    → (serve_request start now later buf b).busy_until ≡ b
unfolding serve_request is_busy
serve_request-deadline start now later b buf h busy =
    rw (end_task_early start b (ground arith)) (answer_request-deadline now later b buf busy)

task_request-decimal : (n : ℕ) → n < 2 ^ 31 → task_request n ≡ codes "TASK " ++ decimal n
unfolding task_request task_text
task_request-decimal n h = rw (to_int-pos n h) refl

-- The text of a task arrives whole.
task_request_arrives :
    (n : ℕ)
    → n < 2 ^ 31
    → cut_at 10 (c_str (take 63 (codes "TASK " ++ decimal n))) ≡ codes "TASK " ++ decimal n
unfolding is_digit
task_request_arrives n h =
    let digits_0 : Without 0 (decimal n) = decimal-Without 0 n refl in
    let digits_10 : Without 10 (decimal n) = decimal-Without 10 n refl in
    rw (
      take_all 63 (codes "TASK " ++ decimal n) (omega (arith, length-decimal n h)),
      cut_at_of_Without 0 (codes "TASK " ++ decimal n)
          (All-append (λ c. c ≢ 0) (codes "TASK ") (decimal n) (omega arith) digits_0),
      cut_at_of_Without 10 (codes "TASK " ++ decimal n)
          (All-append (λ c. c ≢ 10) (codes "TASK ") (decimal n) (omega arith) digits_10),
    )

answer_task :
    (now later n b : ℕ)
    → n < 2 ^ 31
    → answer_request now later (task_request n) b ≡ take_task now later (pos n) b
unfolding answer_request str_eq starts_with
answer_task now later n b h =
    rw (task_request-decimal n h, task_request_arrives n h)
      (ap (λ k. take_task now later k b) (atoi_int-decimal n h))

end_task_late : (start b : ℕ) → b ≤ start → end_task start b ≡ 0
unfolding end_task
end_task_late start b h = ground arith

take_task_idle :
    (now later n : ℕ)
    → 0 < n
    → take_task now later (pos n) 0
      ≡ record { response = codes "OK"; busy_until = later + n; running = true }
unfolding take_task is_busy
take_task_idle now later n h = let e : (n == 0) ≡ false = ground arith in rw e

take_task_busy :
    (now later n b : ℕ)
    → now < b
    → take_task now later (pos n) b
      ≡ record { response = busy_reply later b; busy_until = b; running = true }
unfolding take_task is_busy
take_task_busy now later n b h =
    let e : ltb 0 b ≡ true = ground arith in let k : ltb now b ≡ true = ground arith in rw (e, k)

answer_status_idle :
    (now later : ℕ)
    → answer_request now later (codes "STATUS") 0
      ≡ record { response = codes "AVAILABLE"; busy_until = 0; running = true }
unfolding answer_request str_eq cut_at is_busy
answer_status_idle now later = refl

-- An idle driver takes a task of `n` seconds, not 0, and is busy until its deadline. Before the
-- deadline it refuses a further task with the seconds that are left; asked for its status behind
-- the deadline it is idle again. The numbers are such that an `int` holds them.
pub serve_request_task :
    (start now later n m b : ℕ)
    → n < 2 ^ 31
    → m < 2 ^ 31
    → 0 < n
    → end_task start b ≡ 0
    → (serve_request start now later (task_request n) b
        ≡ record { response = codes "OK"; busy_until = later + n; running = true })
      × ((s t u : ℕ)
          → s ≤ t
          → t < later + n
          → serve_request s t u (task_request m) (later + n) ≡ record {
            response = busy_reply u (later + n);
            busy_until = later + n;
            running = true;
          })
      × ((s t u : ℕ)
          → later + n ≤ s
          → serve_request s t u (codes "STATUS") (later + n)
            ≡ record { response = codes "AVAILABLE"; busy_until = 0; running = true })
unfolding serve_request
serve_request_task start now later n m b hn hm pos_n idle = (
  rw idle (answer_task now later n 0 hn ∙ take_task_idle now later n pos_n),
  λ s t u h k.
      rw (end_task_early s (later + n) (omega arith))
        (answer_task t u m (later + n) hm ∙ take_task_busy t u m (later + n) k),
  λ s t u h. rw (end_task_late s (later + n) h) (answer_status_idle t u),
)
