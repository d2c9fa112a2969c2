-- ===== src/Broker/Programs/Subscriptions.antt =====
-- The start of a subscriber: its topics from the command line to the broker's table.
use eltex_summer.Base.{
  ℕ, suc, ◌+◌, ◌≤◌, ◌<◌, ◌≡◌, refl, ap, ◌∙◌, Bool, true, false, ◌&&◌, ◌||◌, some, List, [], ◌∷◌,
  ◌++◌, Bytes, codes, str_eq, Without, All, length, length-append, take_all, leb, ◌==◌,
  if◌then◌else◌, arith,
}
use eltex_summer.Base.Int.{ℤ, pos, int_eq}
use eltex_summer.Broker.{
  Broker, served, serve, run_command, is_subscribed, subscribe, unsubscribe, request_text,
}
use eltex_summer.Broker.Tables.{IsValid}
use eltex_summer.Broker.Delivery.{is_subscribed-subscribe, is_subscribed-unsubscribe}
use eltex_summer.Broker.Texts.{parse_message-request_text}
use eltex_summer.Broker.Valid.{subscribe-IsValid, unsubscribe-IsValid}
use eltex_summer.Broker.Programs.{
  put_token, first_and_rest, tokens, all_fit, topics_of, subscribe_texts, unsubscribe_texts,
  serve_next, serve_all,
}

-- A topic as it can stand among others in an argument
pub record IsTopic (topic : Bytes) : Type 0 where
  pub some_bytes : 0 < length topic
  pub no_comma : Without b',' topic
  pub fits : length topic < 64

-- Topics behind another one, and an argument of topics, with commas between them
unfoldable pub more_topics : List Bytes → Bytes
more_topics [] = []
more_topics (t ∷ ts) = b',' ∷ (t ++ more_topics ts)

unfoldable pub joined : List Bytes → Bytes
joined [] = []
joined (t ∷ ts) = t ++ more_topics ts

put_token-some : (t : Bytes) (ts : List Bytes) → 0 < length t → put_token t ts ≡ t ∷ ts
unfolding put_token
put_token-some [] ts h = absurd (omega (arith, h))
put_token-some (c ∷ t) ts h = refl

first_and_rest-joined :
    (t : Bytes) (ts : List Bytes)
    → Without b',' t
    → All IsTopic ts
    → first_and_rest (t ++ more_topics ts) ≡ (t, ts)
unfolding first_and_rest more_topics
first_and_rest-joined [] [] h k = refl
first_and_rest-joined [] (u ∷ us) h k =
    rw (first_and_rest-joined u us k.0.no_comma k.1)
      (ap (λ l. ([], l)) (put_token-some u us k.0.some_bytes))
first_and_rest-joined (c ∷ t) ts h k =
    let other : (c == b',') ≡ false = ground (arith, h.0) in
    rw (first_and_rest-joined t ts h.1 k, other) refl

tokens-joined : (topics : List Bytes) → All IsTopic topics → tokens (joined topics) ≡ topics
unfolding tokens joined
tokens-joined [] h = unfold first_and_rest put_token in refl
tokens-joined (t ∷ ts) h =
    rw (first_and_rest-joined t ts h.0.no_comma h.1) (put_token-some t ts h.0.some_bytes)

all_fit-IsTopic : (topics : List Bytes) → All IsTopic topics → all_fit topics ≡ true
unfolding all_fit
all_fit-IsTopic [] h = refl
all_fit-IsTopic (t ∷ ts) h =
    let fits : leb (length t) 63 ≡ true = ground (arith, h.0.fits) in
    rw (fits, all_fit-IsTopic ts h.1) refl

-- An argument of at most ten topics, each not empty, without a comma and of at most 63 bytes, is taken apart
-- into these topics.
pub topics_of-joined :
    (topics : List Bytes)
    → All IsTopic topics
    → length topics ≤ 10
    → topics_of (joined topics) ≡ some topics
unfolding topics_of
topics_of-joined topics h few =
    rw (tokens-joined topics h, take_all 10 topics few, all_fit-IsTopic topics h) refl

unfoldable pub is_among : Bytes → List Bytes → Bool
is_among u [] = false
is_among u (t ∷ ts) = str_eq t u || is_among u ts

serve-subscribe :
    (b : Broker) (pid : ℕ) (topic : Bytes)
    → IsTopic topic
    → serve b (request_text (codes "subscribe") pid topic) ≡ served (subscribe b (pos pid) topic) []
unfolding serve run_command str_eq
serve-subscribe b pid topic h =
    rw
      (
        parse_message-request_text (codes "subscribe") pid topic (omega arith) (omega arith)
            h.no_comma h.fits,
        serve,
      )
      refl

serve-unsubscribe :
    (b : Broker) (pid : ℕ) (topic : Bytes)
    → IsTopic topic
    → serve b (request_text (codes "unsubscribe") pid topic)
      ≡ served (unsubscribe b (pos pid) topic) []
unfolding serve run_command str_eq
serve-unsubscribe b pid topic h =
    rw
      (
        parse_message-request_text (codes "unsubscribe") pid topic (omega arith) (omega arith)
            h.no_comma h.fits,
        serve,
      )
      refl

length-subscribe :
    (b : Broker) (p : ℤ) (t : Bytes)
    → length (subscribe b p t).subscriptions ≤ suc (length b.subscriptions)
unfolding subscribe
length-subscribe b p t =
    ground (arith, length-append b.subscriptions (record { pid = p; topic = t } ∷ []))

same_or : (e x y o : Bool) → (e && y) || ((e && x) || o) ≡ (e && (x || y)) || o
same_or e x y o = ground arith

-- The texts of a subscriber's start subscribe it to its topics, and change no other subscription.
serve_all-subscribe_texts :
    (topics : List Bytes) (b : Broker) (pid : ℕ)
    → All IsTopic topics
    → IsValid b
    → length b.subscriptions + length topics ≤ 200
    → (b' : Broker) × (serve_all (subscribe_texts pid topics) b ≡ some (b', []))
      × IsValid b'
      × ((q : ℤ) (u : Bytes)
          → is_subscribed b'.subscriptions q u
            ≡ (int_eq (pos pid) q && is_among u topics) || is_subscribed b.subscriptions q u)
unfolding serve_all serve_next subscribe_texts is_among
serve_all-subscribe_texts [] b pid h v room = (b, refl, v, λ q u. ground arith)
serve_all-subscribe_texts (t ∷ ts) b pid h v room =
    let p : ℤ = pos pid in
    let (b', e, v', same) =
      serve_all-subscribe_texts ts (subscribe b p t) pid h.1 (subscribe-IsValid b p t v)
        (omega (arith, length-subscribe b p t, room)) in
    (
      b',
      rw (serve-subscribe b pid t h.0, e) refl,
      v',
      λ q u.
          same q u
          ∙ ap (λ o. (int_eq p q && is_among u ts) || o)
              (is_subscribed-subscribe b p q t u (omega (arith, room)))
          ∙ same_or (int_eq p q) (str_eq t u) (is_among u ts) (is_subscribed b.subscriptions q u),
    )

same_if :
    (e x y o : Bool)
    → (if e && y then false else (if e && x then false else o))
      ≡ (if e && (x || y) then false else o)
same_if e x y o = ground arith

-- The texts of its end take these subscriptions away, and no other.
serve_all-unsubscribe_texts :
    (topics : List Bytes) (b : Broker) (pid : ℕ)
    → All IsTopic topics
    → IsValid b
    → (b' : Broker) × (serve_all (unsubscribe_texts pid topics) b ≡ some (b', []))
      × IsValid b'
      × ((q : ℤ) (u : Bytes)
          → is_subscribed b'.subscriptions q u ≡ (
              if int_eq (pos pid) q && is_among u topics
              then false
              else is_subscribed b.subscriptions q u))
unfolding serve_all serve_next unsubscribe_texts is_among
serve_all-unsubscribe_texts [] b pid h v = (b, refl, v, λ q u. ground arith)
serve_all-unsubscribe_texts (t ∷ ts) b pid h v =
    let p : ℤ = pos pid in
    let (b', e, v', same) =
      serve_all-unsubscribe_texts ts (unsubscribe b p t) pid h.1 (unsubscribe-IsValid b p t v) in
    (
      b',
      rw (serve-unsubscribe b pid t h.0, e) refl,
      v',
      λ q u.
          same q u
          ∙ ap (λ o. if int_eq p q && is_among u ts then false else o)
              (is_subscribed-unsubscribe b p q t u v)
          ∙ same_if (int_eq p q) (str_eq t u) (is_among u ts) (is_subscribed b.subscriptions q u),
    )

if-or : (e o : Bool) → (if e then false else e || o) ≡ (if e then false else o)
if-or e o = ground arith

-- A subscriber is started with at most ten topics, joined by commas, each not empty, without a comma and of at
-- most 63 bytes; the broker's tables are valid and have room for the topics. `run_subscriber` takes the argument
-- apart into these topics. When the broker has served what it sends at its start, the process is subscribed to
-- the topics, and when the broker has served what it sends at its end as well, to none of them. No other
-- subscription changes, the tables stay valid, and the broker sends nothing.
pub topics_of-session :
    (b : Broker) (pid : ℕ) (topics : List Bytes)
    → IsValid b
    → All IsTopic topics
    → length topics ≤ 10
    → length b.subscriptions + length topics ≤ 200
    → (started : Broker) × (ended : Broker) × (topics_of (joined topics) ≡ some topics)
      × (serve_all (subscribe_texts pid topics) b ≡ some (started, []))
      × (serve_all (unsubscribe_texts pid topics) started ≡ some (ended, []))
      × IsValid ended
      × ((q : ℤ) (u : Bytes)
          → is_subscribed started.subscriptions q u
            ≡ (int_eq (pos pid) q && is_among u topics) || is_subscribed b.subscriptions q u)
      × ((q : ℤ) (u : Bytes)
          → is_subscribed ended.subscriptions q u ≡ (
              if int_eq (pos pid) q && is_among u topics
              then false
              else is_subscribed b.subscriptions q u))
topics_of-session b pid topics v h few room =
    let (started, e, w, same) = serve_all-subscribe_texts topics b pid h v room in
    let (ended, f, x, gone) = serve_all-unsubscribe_texts topics started pid h w in
    (
      started,
      ended,
      topics_of-joined topics h few,
      e,
      f,
      x,
      same,
      λ q u.
          gone q u
          ∙ ap (λ o. if int_eq (pos pid) q && is_among u topics then false else o) (same q u)
          ∙ if-or (int_eq (pos pid) q && is_among u topics) (is_subscribed b.subscriptions q u),
    )
