-- ===== src/Broker/Examples.antt =====
-- The broker with a few processes, and with too many.
use eltex_summer.Base.{
  ℕ, zero, suc, ◌≡◌, refl, false, ◌&&◌, ◌||◌, if◌then◌else◌, some, All, List, [], ◌∷◌, Bytes, codes,
  str_eq, length, arith,
}
use eltex_summer.Base.Int.{ℤ, pos, int_eq}
use eltex_summer.Broker.{
  Subscription, Broker, is_subscribed, find_subscribers, is_registered, matches, serve,
}
use eltex_summer.Broker.Tables.{IsValid}
use eltex_summer.Broker.Valid.{AfterServed, serve-IsValid}
use eltex_summer.Broker.Programs.{
  publisher_texts, serve_all, received_by, topics_of, subscribe_texts, unsubscribe_texts,
}
use eltex_summer.Broker.Programs.Subscriptions.{IsTopic, joined, is_among, topics_of-session}
use eltex_summer.Broker.Programs.Sessions.{
  IsLine, typed_lines, lines_for, received_by-publisher_texts,
}

abbrev news : Bytes
news = codes "news"

abbrev reader : ℕ → Subscription
reader n = record { pid = pos n; topic = news }

abbrev two_readers : Broker
two_readers = record { subscriptions = reader 7 ∷ reader 8 ∷ []; publishers = pos 5 ∷ [] }

two_readers-IsValid : IsValid two_readers
unfolding is_subscribed is_registered matches int_eq
two_readers-IsValid = record {
  subscribed_once = (refl, (refl, tt));
  registered_once = (refl, tt);
  subscriptions_fit = omega arith;
  publishers_fit = omega arith;
}

serve-IsValid_example : AfterServed IsValid (serve two_readers (codes "subscribe,9,news"))
serve-IsValid_example = serve-IsValid two_readers (codes "subscribe,9,news") two_readers-IsValid

abbrev readers : ℕ → List Subscription
readers zero = []
readers (suc n) = reader n ∷ readers n

abbrev many_readers : Broker
many_readers = record { subscriptions = readers 101; publishers = [] }

many_found : length (find_subscribers (readers 101) news) ≡ 101
unfolding find_subscribers str_eq
many_found = refl

abbrev two_lines : List Bytes
two_lines = codes "hello, world" ∷ (codes "bye" ∷ [])

two_lines-IsLine : All IsLine two_lines
unfolding str_eq
two_lines-IsLine = (
  record {
    some_bytes = omega arith;
    no_newline = omega arith;
    no_zero = omega arith;
    short = omega arith;
    no_quit = refl;
  },
  (
    record {
      some_bytes = omega arith;
      no_newline = omega arith;
      no_zero = omega arith;
      short = omega arith;
      no_quit = refl;
    },
    tt,
  ),
)

received_by-publisher_texts_example :
    (texts : List Bytes) × (b' : Broker) × (sent : List (ℤ × Bytes)) × (publisher_texts 5 news
        (typed_lines two_lines)
      ≡ some texts)
    × (serve_all texts two_readers ≡ some (b', sent))
    × (b'.subscriptions ≡ two_readers.subscriptions)
    × (received_by (pos 7) sent ≡ (news, codes "hello, world") ∷ ((news, codes "bye") ∷ []))
unfolding find_subscribers str_eq is_subscribed matches int_eq lines_for
received_by-publisher_texts_example =
    received_by-publisher_texts two_readers 5 (pos 7) news two_lines two_readers-IsValid
      two_lines-IsLine (omega arith) (omega arith) (omega arith)

abbrev two_topics : List Bytes
two_topics = news ∷ (codes "art" ∷ [])

two_topics-IsTopic : All IsTopic two_topics
two_topics-IsTopic = (
  record { some_bytes = omega arith; no_comma = omega arith; fits = omega arith },
  (record { some_bytes = omega arith; no_comma = omega arith; fits = omega arith }, tt),
)

topics_of-session_example :
    (started : Broker) × (ended : Broker) × (topics_of (joined two_topics) ≡ some two_topics)
    × (serve_all (subscribe_texts 9 two_topics) two_readers ≡ some (started, []))
    × (serve_all (unsubscribe_texts 9 two_topics) started ≡ some (ended, []))
    × IsValid ended
    × ((q : ℤ) (u : Bytes)
        → is_subscribed started.subscriptions q u
          ≡ (int_eq (pos 9) q && is_among u two_topics)
            || is_subscribed two_readers.subscriptions q u)
    × ((q : ℤ) (u : Bytes)
        → is_subscribed ended.subscriptions q u ≡ (
            if int_eq (pos 9) q && is_among u two_topics
            then false
            else is_subscribed two_readers.subscriptions q u))
topics_of-session_example =
    topics_of-session two_readers 9 two_topics two_readers-IsValid two_topics-IsTopic (omega arith)
      (omega arith)
