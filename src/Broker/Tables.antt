-- ===== src/Broker/Tables.antt =====
-- The tables of the broker.
use eltex_summer.Base.{
  ◌≤◌, ◌≡◌, refl, true, false, ◌||◌, ◌&&◌, List, [], ◌∷◌, ◌++◌, Bytes, str_eq, str_eq_iff, length,
  if◌then◌else◌, arith,
}
use eltex_summer.Base.Int.{ℤ, int_eq, int_eq_iff}
use eltex_summer.Broker.{
  Subscription, Broker, matches, is_subscribed, remove_subscription, is_registered,
}

abbrev pub DistinctSubscriptions : List Subscription → Type 0
DistinctSubscriptions [] = Unit {0}
DistinctSubscriptions (s ∷ subs) =
    (is_subscribed subs s.pid s.topic ≡ false) × DistinctSubscriptions subs

abbrev pub DistinctPids : List ℤ → Type 0
DistinctPids [] = Unit {0}
DistinctPids (p ∷ pubs) = (is_registered pubs p ≡ false) × DistinctPids pubs

pub record IsValid (b : Broker) : Type 0 where
  pub subscribed_once : DistinctSubscriptions b.subscriptions
  pub registered_once : DistinctPids b.publishers
  pub subscriptions_fit : length b.subscriptions ≤ 200
  pub publishers_fit : length b.publishers ≤ 100

pub matches_iff_eq :
    (s : Subscription) (p q : ℤ) (t u : Bytes)
    → matches s p t ≡ true
    → matches s q u ≡ int_eq p q && str_eq t u
unfolding matches
matches_iff_eq s p q t u h = ground (arith, int_eq_iff s.pid p, str_eq_iff s.topic t)

pub is_subscribed-append :
    (xs ys : List Subscription) (pid : ℤ) (topic : Bytes)
    → is_subscribed (xs ++ ys) pid topic ≡ is_subscribed xs pid topic || is_subscribed ys pid topic
unfolding is_subscribed
is_subscribed-append [] ys pid topic = refl
is_subscribed-append (x ∷ xs) ys pid topic = ground (arith, is_subscribed-append xs ys pid topic)

pub is_registered-append :
    (xs ys : List ℤ) (pid : ℤ)
    → is_registered (xs ++ ys) pid ≡ is_registered xs pid || is_registered ys pid
unfolding is_registered
is_registered-append [] ys pid = refl
is_registered-append (x ∷ xs) ys pid = ground (arith, is_registered-append xs ys pid)

pub DistinctPids-snoc :
    (xs : List ℤ) (p : ℤ)
    → DistinctPids xs
    → is_registered xs p ≡ false
    → DistinctPids (xs ++ p ∷ [])
unfolding is_registered
DistinctPids-snoc [] p d h = (refl, tt)
DistinctPids-snoc (x ∷ xs) p d h = (
  ground (arith, is_registered-append xs (p ∷ []) x, int_eq_iff x p, int_eq_iff p x),
  DistinctPids-snoc xs p d.1 (ground arith),
)

pub DistinctSubscriptions-snoc :
    (xs : List Subscription) (p : ℤ) (t : Bytes)
    → DistinctSubscriptions xs
    → is_subscribed xs p t ≡ false
    → DistinctSubscriptions (xs ++ record { pid = p; topic = t } ∷ [])
unfolding is_subscribed matches
DistinctSubscriptions-snoc [] p t d h = (refl, tt)
DistinctSubscriptions-snoc (x ∷ xs) p t d h = (
  ground (
    arith,
    is_subscribed-append xs (record { pid = p; topic = t } ∷ []) x.pid x.topic,
    int_eq_iff x.pid p,
    int_eq_iff p x.pid,
    str_eq_iff x.topic t,
    str_eq_iff t x.topic,
  ),
  DistinctSubscriptions-snoc xs p t d.1 (ground arith),
)

pub is_subscribed-remove :
    (subs : List Subscription) (p q : ℤ) (t u : Bytes)
    → DistinctSubscriptions subs
    → is_subscribed (remove_subscription subs p t) q u
      ≡ (if int_eq p q && str_eq t u then false else is_subscribed subs q u)
unfolding is_subscribed remove_subscription matches
is_subscribed-remove [] p q t u d = ground arith
is_subscribed-remove (s ∷ subs) p q t u d = ground (
  arith,
  is_subscribed-remove subs p q t u d.1,
  int_eq_iff s.pid p,
  int_eq_iff s.pid q,
  int_eq_iff p q,
  str_eq_iff s.topic t,
  str_eq_iff s.topic u,
  str_eq_iff t u,
)
