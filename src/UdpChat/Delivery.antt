-- ===== src/UdpChat/Delivery.antt =====
-- Who sees the messages of a chat.
use eltex_summer.Base.{
  ℕ, ◌+◌, ◌≤◌, ◌<◌, ◌≡◌, ◌≢◌, refl, ap, ◌∙◌, inl, inr, true, false, [], ◌∷◌, ◌++◌, Bytes, codes,
  c_str, cut_at_of_Without, Without, str_eq, starts_with, find_text, take, take_all, All-append,
  length, length-append, if◌then◌else◌, is_some, Bool-cases, arith,
}
use eltex_summer.Base.Scan.{is_digit}
use eltex_summer.UdpChat.{
  is_alnum, all_in_name, is_valid_nickname, is_my_message, cut_message, chat_message, ChatRun,
  handle_line, handle_datagram,
}

starts_with-append : (p t : Bytes) → starts_with (p ++ t) p ≡ true
unfolding starts_with
starts_with-append [] t = refl
starts_with-append (c ∷ p) t = ground (arith, starts_with-append p t)

found_here : (s : Bytes) (p : Bytes) → starts_with s p ≡ true → is_some (find_text s p) ≡ true
unfolding find_text starts_with
found_here s [] h = refl
found_here [] (q ∷ p) h = absurd (cc)
found_here (c ∷ s) (q ∷ p) h = rw (h) refl

found_later :
    (c : ℕ) (s p : Bytes) → is_some (find_text s p) ≡ true → is_some (find_text (c ∷ s) p) ≡ true
unfolding find_text
found_later c s [] h = refl
found_later c s (q ∷ p) h = elim (Bool-cases (starts_with (c ∷ s) (q ∷ p))) [
  | inl e ↦ simp (e) refl
  | inr e ↦ simp (e) h
]

-- The defect: a message in which the nickname stands anywhere counts as one's own, whoever sent it.
pub is_my_message-append :
    (nickname before behind : Bytes)
    → is_my_message nickname (before ++ (nickname ++ behind)) ≡ true
unfolding is_my_message
is_my_message-append nickname [] behind =
    found_here (nickname ++ behind) nickname (starts_with-append nickname behind)
is_my_message-append nickname (c ∷ before) behind =
    found_later c (before ++ (nickname ++ behind)) nickname
      (is_my_message-append nickname before behind)

in_name-Without : (s : Bytes) → all_in_name s ≡ true → Without 0 s
unfolding all_in_name is_alnum is_digit
in_name-Without [] h = tt
in_name-Without (c ∷ s) h = (ground arith, in_name-Without s (ground arith))

-- A datagram that fits and has no zero byte is judged and shown as a whole.
handle_datagram-whole :
    (nickname m : Bytes) (r : ChatRun)
    → 0 < length m
    → length m ≤ 1023
    → Without 0 m
    → handle_datagram nickname m r
      ≡ (if is_my_message nickname m then r else record r { shown = r.shown ++ m ∷ [] })
unfolding handle_datagram
handle_datagram-whole nickname [] r h k w = absurd (omega arith)
handle_datagram-whole nickname (b ∷ m) r h k w =
    let whole : c_str (take 1023 (b ∷ m)) ≡ b ∷ m =
      ap c_str (take_all 1023 (b ∷ m) k) ∙ cut_at_of_Without 0 (b ∷ m) w in
    ap (λ l. if is_my_message nickname l then r else record r { shown = r.shown ++ l ∷ [] }) whole

-- A line that is not empty and no command, typed by a user with a valid nickname, without a zero byte, short
-- enough for the buffer with the nickname: one datagram is sent. The user's own chat does not show it, and
-- the chat of every other user shows it once, whole, unless it has that user's nickname in it.
pub handle_line-handle_datagram :
    (nickname other line : Bytes) (r s : ChatRun)
    → is_valid_nickname nickname ≡ true
    → 0 < length line
    → Without 0 line
    → length nickname + length line ≤ 1019
    → str_eq line (codes "/quit") ≡ false
    → str_eq line (codes "/whoami") ≡ false
    → is_my_message other (b'[' ∷ (nickname ++ (codes "]: " ++ line))) ≡ false
    → ((handle_line nickname line r).sent ≡ r.sent ++ chat_message nickname line ∷ [])
      × (handle_datagram nickname (chat_message nickname line) r ≡ r)
      × ((handle_datagram other (chat_message nickname line) s).shown
          ≡ s.shown ++ (b'[' ∷ (nickname ++ (codes "]: " ++ line))) ∷ [])
unfolding handle_line is_valid_nickname chat_message cut_message
handle_line-handle_datagram [] other line r s valid some_bytes text short no_quit no_whoami
      strange =
    absurd (cc)
handle_line-handle_datagram nickname other [] r s valid some_bytes text short no_quit no_whoami
      strange =
    absurd (omega arith)
handle_line-handle_datagram (n ∷ name) other (c ∷ line) r s valid some_bytes text short no_quit
      no_whoami strange =
    let nickname : Bytes = n ∷ name in
    let behind : Bytes = codes "]: " ++ (c ∷ line) in
    let m : Bytes = b'[' ∷ (nickname ++ behind) in
    let size : length m ≤ 1023 = omega (arith, length-append nickname behind, short) in
    let uncut : take 1023 m ≡ m = take_all 1023 m size in
    let nonzero : Without 0 m = (
      omega arith,
      All-append (λ x. x ≢ 0) nickname behind (in_name-Without nickname valid)
          (omega arith, (omega arith, (omega arith, text))),
    ) in
    let mine : is_my_message nickname m ≡ true = is_my_message-append nickname (b'[' ∷ []) behind in
    let own : handle_datagram nickname m r ≡ r =
      handle_datagram-whole nickname m r (omega arith) size nonzero ∙ simp (mine) refl in
    let others : handle_datagram other m s ≡ record s { shown = s.shown ++ m ∷ [] } =
      handle_datagram-whole other m s (omega arith) size nonzero ∙ simp (strange) refl in
    (
      simp (no_quit, no_whoami) refl,
      ap (λ l. handle_datagram nickname l r) uncut ∙ own,
      ap (λ l. (handle_datagram other l s).shown) uncut ∙ ap (λ t. t.shown) others,
    )
