-- ===== src/Broker/Valid.antt =====
-- Every message keeps the tables of the broker in order.
use eltex_summer.Base.{
  ◌≤◌, ◌≡◌, refl, inl, inr, Bool, true, false, ◌||◌, List, [], ◌∷◌, ◌++◌, Bytes, str_eq, length,
  length-append, leb, ltb, if◌then◌else◌, Bool-cases, codes, map, arith,
}
use eltex_summer.Base.Int.{ℤ}
use eltex_summer.Broker.{
  Subscription, Broker, Served, served, overflow, Parsed, parsed, malformed, fault, is_subscribed,
  find_subscribers, remove_subscription, is_registered, subscribe, unsubscribe, register, send,
  run_command, serve, parse_message,
}
use eltex_summer.Broker.Tables.{
  DistinctSubscriptions, IsValid, DistinctPids-snoc, DistinctSubscriptions-snoc,
}

length-remove :
    (subs : List Subscription) (p : ℤ) (t : Bytes)
    → length (remove_subscription subs p t) ≤ length subs
unfolding remove_subscription
length-remove [] p t = omega arith
length-remove (s ∷ subs) p t = ground (arith, length-remove subs p t)

is_subscribed-remove_none :
    (subs : List Subscription) (p q : ℤ) (t u : Bytes)
    → is_subscribed subs q u ≡ false
    → is_subscribed (remove_subscription subs p t) q u ≡ false
unfolding is_subscribed remove_subscription
is_subscribed-remove_none [] p q t u h = refl
is_subscribed-remove_none (s ∷ subs) p q t u h =
    ground (arith, is_subscribed-remove_none subs p q t u)

DistinctSubscriptions-remove :
    (subs : List Subscription) (p : ℤ) (t : Bytes)
    → DistinctSubscriptions subs
    → DistinctSubscriptions (remove_subscription subs p t)
unfolding remove_subscription
DistinctSubscriptions-remove [] p t d = tt
DistinctSubscriptions-remove (s ∷ subs) p t d = ground (
  arith,
  DistinctSubscriptions-remove subs p t d.1,
  is_subscribed-remove_none subs p s.pid t s.topic d.0,
)

pub subscribe-IsValid :
    (b : Broker) (pid : ℤ) (topic : Bytes) → IsValid b → IsValid (subscribe b pid topic)
unfolding subscribe
subscribe-IsValid b pid topic v =
    let subs = b.subscriptions in
    elim (Bool-cases (is_subscribed subs pid topic || leb 200 (length subs))) [
      | inl e ↦ rw e v
      | inr e ↦ rw e (record {
        subscribed_once =
            DistinctSubscriptions-snoc subs pid topic v.subscribed_once (ground arith);
        registered_once = v.registered_once;
        subscriptions_fit =
            ground (arith, length-append subs (record { pid = pid; topic = topic } ∷ []));
        publishers_fit = v.publishers_fit;
      })
    ]

pub unsubscribe-IsValid :
    (b : Broker) (pid : ℤ) (topic : Bytes) → IsValid b → IsValid (unsubscribe b pid topic)
unfolding unsubscribe
unsubscribe-IsValid b pid topic v = record {
  subscribed_once = DistinctSubscriptions-remove b.subscriptions pid topic v.subscribed_once;
  registered_once = v.registered_once;
  subscriptions_fit = omega (arith, v.subscriptions_fit, length-remove b.subscriptions pid topic);
  publishers_fit = v.publishers_fit;
}

register-IsValid : (b : Broker) (pid : ℤ) → IsValid b → IsValid (register b pid)
unfolding register
register-IsValid b pid v =
    let pubs = b.publishers in
    elim (Bool-cases (is_registered pubs pid || leb 100 (length pubs))) [
      | inl e ↦ rw e v
      | inr e ↦ rw e (record {
        subscribed_once = v.subscribed_once;
        registered_once = DistinctPids-snoc pubs pid v.registered_once (ground arith);
        subscriptions_fit = v.subscriptions_fit;
        publishers_fit = ground (arith, length-append pubs (pid ∷ []));
      })
    ]

-- What holds of the broker after a message that it survives.
abbrev pub AfterServed {ℓ} : (Broker → Type ℓ) → Served → Type ℓ
AfterServed P (served b out) = P b
AfterServed P overflow = Unit

if_AfterServed :
    (c : Bool) (r q : Served)
    → AfterServed IsValid r
    → AfterServed IsValid q
    → AfterServed IsValid (if c then r else q)
if_AfterServed true r q h k = h
if_AfterServed false r q h k = k

send-IsValid :
    (b : Broker) (topic payload : Bytes) → IsValid b → AfterServed IsValid (send b topic payload)
unfolding send
send-IsValid b topic payload v =
    let found = find_subscribers b.subscriptions topic in
    if_AfterServed (ltb 100 (length found)) overflow
      (served b (map (λ p. (p, topic ++ b',' ∷ payload)) found)) tt v

run_command-IsValid :
    (b : Broker) (command : Bytes) (pid : ℤ) (topic payload : Bytes)
    → IsValid b
    → AfterServed IsValid (run_command b command pid topic payload)
unfolding run_command
run_command-IsValid b command pid topic payload v =
    if_AfterServed (str_eq command (codes "subscribe")) _ _ (subscribe-IsValid b pid topic v) (
      if_AfterServed (str_eq command (codes "unsubscribe")) _ _ (unsubscribe-IsValid b pid topic v)
        (if_AfterServed (str_eq command (codes "register")) _ _ (register-IsValid b pid v) (
          if_AfterServed (str_eq command (codes "send")) _ (served b [])
            (send-IsValid b topic payload v) v)))

-- Whatever text arrives at a broker with valid tables, unless it makes the broker write past an
-- array, the tables keep their bounds and hold each subscription and each publisher once.
pub serve-IsValid : (b : Broker) (text : Bytes) → IsValid b → AfterServed IsValid (serve b text)
unfolding serve
serve-IsValid b text v = by_parse (parse_message text)
  where
    by_parse :
        (p : Parsed)
        → AfterServed IsValid (elim p as (λ _. Served) [
          | malformed ↦ served b []
          | fault ↦ overflow
          | parsed command pid topic payload ↦ run_command b command pid topic payload
        ])
    by_parse malformed = v
    by_parse fault = tt
    by_parse (parsed command pid topic payload) = run_command-IsValid b command pid topic payload v
