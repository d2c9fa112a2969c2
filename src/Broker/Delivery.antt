-- ===== src/Broker/Delivery.antt =====
-- Who gets what is sent on a topic.
use eltex_summer.Base.{
  ℕ, suc, ◌<◌, ◌≡◌, refl, true, false, ◌||◌, ◌&&◌, List, [], ◌∷◌, Bytes, str_eq, str_eq_iff, length,
  if◌then◌else◌, arith,
}
use eltex_summer.Base.Int.{ℤ, int_eq, int_eq_iff}
use eltex_summer.Broker.{
  Subscription, Broker, matches, is_subscribed, find_subscribers, subscribe, unsubscribe,
}
use eltex_summer.Broker.Tables.{
  DistinctSubscriptions, IsValid, is_subscribed-append, is_subscribed-remove,
}

is_subscribed_same :
    (subs : List Subscription) (p q : ℤ) (t u : Bytes)
    → is_subscribed subs p t ≡ true
    → int_eq p q ≡ true
    → str_eq t u ≡ true
    → is_subscribed subs q u ≡ true
is_subscribed_same subs p q t u h e k = rw (← (int_eq_iff p q).0 e, ← (str_eq_iff t u).0 k) h

-- With room in the table a subscription takes effect for its process and topic and for no other.
pub is_subscribed-subscribe :
    (b : Broker) (p q : ℤ) (t u : Bytes)
    → length b.subscriptions < 200
    → is_subscribed (subscribe b p t).subscriptions q u
      ≡ (int_eq p q && str_eq t u) || is_subscribed b.subscriptions q u
unfolding subscribe is_subscribed matches
is_subscribed-subscribe b p q t u h = ground (
  arith,
  is_subscribed-append b.subscriptions (record { pid = p; topic = t } ∷ []) q u,
  is_subscribed_same b.subscriptions p q t u,
)

-- With valid tables, after `unsubscribe` the process gets the topic no more; all other
-- subscriptions stay.
pub is_subscribed-unsubscribe :
    (b : Broker) (p q : ℤ) (t u : Bytes)
    → IsValid b
    → is_subscribed (unsubscribe b p t).subscriptions q u
      ≡ (if int_eq p q && str_eq t u then false else is_subscribed b.subscriptions q u)
unfolding unsubscribe
is_subscribed-unsubscribe b p q t u v =
    is_subscribed-remove b.subscriptions p q t u v.subscribed_once

-- How often a process stands in a list.
unfoldable pub count_pid : ℤ → List ℤ → ℕ
count_pid p [] = 0
count_pid p (q ∷ qs) = if int_eq q p then suc (count_pid p qs) else count_pid p qs

count_pid_none :
    (subs : List Subscription) (p : ℤ) (t : Bytes)
    → is_subscribed subs p t ≡ false
    → count_pid p (find_subscribers subs t) ≡ 0
unfolding find_subscribers is_subscribed count_pid matches
count_pid_none [] p t h = refl
count_pid_none (s ∷ subs) p t h = ground (arith, count_pid_none subs p t)

count_find :
    (subs : List Subscription) (p : ℤ) (t : Bytes)
    → DistinctSubscriptions subs
    → count_pid p (find_subscribers subs t) ≡ (if is_subscribed subs p t then 1 else 0)
unfolding find_subscribers is_subscribed count_pid matches
count_find [] p t d = refl
count_find (s ∷ subs) p t d = ground (
  arith,
  count_find subs p t d.1,
  count_pid_none subs p t,
  int_eq_iff s.pid p,
  str_eq_iff s.topic t,
)

-- With valid tables `find_subscribers` finds each subscriber of the topic once and nobody else.
pub count_pid-find_subscribers :
    (b : Broker) (p : ℤ) (t : Bytes)
    → IsValid b
    → count_pid p (find_subscribers b.subscriptions t)
      ≡ (if is_subscribed b.subscriptions p t then 1 else 0)
count_pid-find_subscribers b p t v = count_find b.subscriptions p t v.subscribed_once
