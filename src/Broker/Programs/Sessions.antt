-- ===== src/Broker/Programs/Sessions.antt =====
-- A publisher's session, from the keyboard to a subscriber.
use eltex_summer.Base.{
  ℕ, zero, suc, ◌+◌, ◌≤◌, ◌<◌, ◌≡◌, refl, sym, ap, subst, ◌∙◌, inl, inr, Bool, true, false, some,
  List, [], ◌∷◌, ◌++◌, Bytes, codes, str_eq, Without, All, length, length-append, replicate, map,
  if◌then◌else◌, Bool-cases, arith,
}
use eltex_summer.Base.Int.{ℤ, pos, int_eq}
use eltex_summer.Contacts.Input.Lines.{read_field-newline}
use eltex_summer.Broker.{
  Broker, served, serve, run_command, find_subscribers, is_subscribed, register, send_text,
  request_text, parse_received_message,
}
use eltex_summer.Broker.Tables.{IsValid}
use eltex_summer.Broker.Delivery.{count_pid, count_pid-find_subscribers}
use eltex_summer.Broker.Texts.{serve-send_text, parse_message-request_text}
use eltex_summer.Broker.Programs.{
  publish_line, publish_lines, publisher_texts, serve_next, serve_all, received_by,
}

-- A line that the publisher passes on: not empty, not "quit", one line of at most 254 bytes
pub record IsLine (line : Bytes) : Type 0 where
  pub some_bytes : 0 < length line
  pub no_newline : Without 10 line
  pub no_zero : Without 0 line
  pub short : length line ≤ 254
  pub no_quit : str_eq line (codes "quit") ≡ false

-- The lines as they are typed, and "quit"
unfoldable pub typed_lines : List Bytes → Bytes
typed_lines [] = codes "quit" ++ 10 ∷ []
typed_lines (line ∷ lines) = line ++ 10 ∷ typed_lines lines

publish_lines-line :
    (fuel pid : ℕ) (topic line rest : Bytes)
    → Without 10 line
    → Without 0 line
    → length line ≤ 254
    → publish_lines (suc fuel) pid topic (line ++ 10 ∷ rest)
      ≡ publish_line pid topic line (publish_lines fuel pid topic rest)
unfolding publish_lines
publish_lines-line fuel pid topic [] rest h z l =
    rw (read_field-newline 256 [] [] rest h z (omega arith)) refl
publish_lines-line fuel pid topic (c ∷ line) rest h z l =
    rw (read_field-newline 256 [] (c ∷ line) rest h z (omega arith)) refl

publish_line-passed :
    (pid : ℕ) (topic line : Bytes) (texts : List Bytes)
    → IsLine line
    → publish_line pid topic line (some texts) ≡ some (send_text pid topic line ∷ texts)
unfolding publish_line
publish_line-passed pid topic [] texts h = absurd (omega (arith, h.some_bytes))
publish_line-passed pid topic (c ∷ line) texts h = rw (h.no_quit) refl

publish_lines-typed :
    (lines : List Bytes) (fuel pid : ℕ) (topic : Bytes)
    → All IsLine lines
    → length (typed_lines lines) ≤ fuel
    → publish_lines fuel pid topic (typed_lines lines) ≡ some (map (send_text pid topic) lines)
unfolding typed_lines
publish_lines-typed [] zero pid topic h f = absurd (omega arith)
publish_lines-typed [] (suc fuel) pid topic h f =
    publish_lines-line fuel pid topic (codes "quit") [] (omega arith) (omega arith) (omega arith)
    ∙ (unfold publish_line str_eq in refl)
publish_lines-typed (line ∷ lines) zero pid topic h f =
    absurd (omega (arith, length-append line (10 ∷ typed_lines lines), f))
publish_lines-typed (line ∷ lines) (suc fuel) pid topic h f =
    publish_lines-line fuel pid topic line (typed_lines lines) h.0.no_newline h.0.no_zero h.0.short
    ∙ ap (publish_line pid topic line) (
        publish_lines-typed lines fuel pid topic h.1
          (omega (arith, length-append line (10 ∷ typed_lines lines), f)))
    ∙ publish_line-passed pid topic line (map (send_text pid topic) lines) h.0

received_by-append :
    (p : ℤ) (xs ys : List (ℤ × Bytes))
    → received_by p (xs ++ ys) ≡ received_by p xs ++ received_by p ys
unfolding received_by
received_by-append p [] ys = refl
received_by-append p ((q, text) ∷ xs) ys = elim (Bool-cases (int_eq q p)) [
  | inl e ↦ rw (e) (ap (λ l. parse_received_message text ∷ l) (received_by-append p xs ys))
  | inr e ↦ rw (e) (received_by-append p xs ys)
]

-- A text that goes to several processes is received by one of them as often as it stands among them.
received_by-map :
    (p : ℤ) (text : Bytes) (found : List ℤ)
    → received_by p (map (λ q. (q, text)) found)
      ≡ replicate (count_pid p found) (parse_received_message text)
unfolding received_by count_pid
received_by-map p text [] = refl
received_by-map p text (q ∷ found) = elim (Bool-cases (int_eq q p)) [
  | inl e ↦ rw (e) (ap (λ l. parse_received_message text ∷ l) (received_by-map p text found))
  | inr e ↦ rw (e) (received_by-map p text found)
]

-- The lines that a process gets, if it is subscribed
unfoldable pub lines_for : Bool → Bytes → List Bytes → List (Bytes × Bytes)
lines_for subscribed topic [] = []
lines_for subscribed topic (line ∷ lines) =
    let rest = lines_for subscribed topic lines in if subscribed then (topic, line) ∷ rest else rest

replicate-if :
    (subscribed : Bool) (x : Bytes × Bytes) (rest : List (Bytes × Bytes)) (n : ℕ)
    → n ≡ (if subscribed then 1 else 0)
    → replicate n x ++ rest ≡ (if subscribed then x ∷ rest else rest)
replicate-if true x rest n e = rw (e) refl
replicate-if false x rest n e = rw (e) refl

module _ (b : Broker) (pid : ℕ) (p : ℤ) (topic : Bytes) (no_comma : Without b',' topic)
    (fits : length topic < 64) (few : length (find_subscribers b.subscriptions topic) ≤ 100)
    (subscribed : Bool)
    (once : count_pid p (find_subscribers b.subscriptions topic)
      ≡ (if subscribed then 1 else 0)) where
  serve_lines :
      (lines : List Bytes)
      → All IsLine lines
      → (sent : List (ℤ × Bytes)) × (serve_all (map (send_text pid topic) lines) b ≡ some (b, sent))
        × (received_by p sent ≡ lines_for subscribed topic lines)
  unfolding serve_all serve_next received_by lines_for
  serve_lines [] h = ([], refl, refl)
  serve_lines (line ∷ lines) h =
      let found : List ℤ = find_subscribers b.subscriptions topic in
      let (text, e, back) =
        serve-send_text b pid topic line no_comma fits (omega (arith, h.0.short)) few in
      let (sent, f, got) = serve_lines lines h.1 in
      (
        map (λ q. (q, text)) found ++ sent,
        rw (e, f) refl,
        received_by-append p (map (λ q. (q, text)) found) sent
            ∙ ap (λ l. l ++ received_by p sent) (received_by-map p text found)
            ∙ replicate-if subscribed (parse_received_message text) (received_by p sent)
                (count_pid p found) once
            ∙ ap (λ x. if subscribed then x ∷ received_by p sent else received_by p sent) back
            ∙ ap (λ r. if subscribed then (topic, line) ∷ r else r) got,
      )

serve-register :
    (b : Broker) (pid : ℕ) (topic : Bytes)
    → Without b',' topic
    → length topic < 64
    → serve b (request_text (codes "register") pid topic) ≡ served (register b (pos pid)) []
unfolding serve run_command str_eq
serve-register b pid topic h l =
    rw
      (
        parse_message-request_text (codes "register") pid topic (omega arith) (omega arith) h l,
        serve,
      )
      refl

register-subscriptions : (b : Broker) (pid : ℤ) → (register b pid).subscriptions ≡ b.subscriptions
unfolding register
register-subscriptions b pid = ground arith

-- A publisher is started with a topic, the user types some lines and "quit", and the broker, whose tables are
-- valid, serves all that it sends. The publisher ends; the subscriptions stay as they are; and a process
-- receives all lines with the topic, in their order and each once, if it is subscribed to the
-- topic, and nothing otherwise. The topic has at most 63 bytes, no comma and at most 100 subscribers; the
-- lines are not empty, not "quit", and have at most 254 bytes.
pub received_by-publisher_texts :
    (b : Broker) (pid : ℕ) (p : ℤ) (topic : Bytes) (lines : List Bytes)
    → IsValid b
    → All IsLine lines
    → Without b',' topic
    → length topic < 64
    → length (find_subscribers b.subscriptions topic) ≤ 100
    → (texts : List Bytes) × (b' : Broker) × (sent : List (ℤ × Bytes)) × (publisher_texts pid topic
          (typed_lines lines)
        ≡ some texts)
      × (serve_all texts b ≡ some (b', sent))
      × (b'.subscriptions ≡ b.subscriptions)
      × (received_by p sent ≡ lines_for (is_subscribed b.subscriptions p topic) topic lines)
unfolding publisher_texts serve_all serve_next
received_by-publisher_texts b pid p topic lines v h t l few =
    let b' : Broker = register b (pos pid) in
    let same : b'.subscriptions ≡ b.subscriptions = register-subscriptions b (pos pid) in
    let (sent, e, got) =
      serve_lines b' pid p topic t l
        (subst (λ s. length (find_subscribers s topic) ≤ 100) (sym same) few)
        (is_subscribed b.subscriptions p topic)
        (ap (λ s. count_pid p (find_subscribers s topic)) same
          ∙ count_pid-find_subscribers b p topic v)
        lines h in
    (
      request_text (codes "register") pid topic ∷ map (send_text pid topic) lines,
      b',
      sent,
      rw (publish_lines-typed lines (length (typed_lines lines) + 1) pid topic h (omega arith))
          refl,
      rw (serve-register b pid topic t l, e) refl,
      same,
      got,
    )
