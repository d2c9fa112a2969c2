-- ===== src/QueueChat/Places.antt =====
-- The order of the messages in a queue, and what the programs put into it.
use eltex_summer.Base.{
  ◌≤◌, ◌≡◌, refl, ap, ◌⊎◌, inl, inr, List, [], ◌∷◌, ◌++◌, Bytes, c_str, cut_at, Without, All,
  length, ltb, ◌==◌, if◌then◌else◌, Bool-cases, arith,
}
use eltex_summer.QueueChat.{Message, place, exit_priority, exit_message, normal_message}

-- The exit message, or a line with its zero byte that fits into a message
abbrev pub IsOurs : Message → Type 0
IsOurs m =
    (m ≡ exit_message)
    ⊎ ((line : Bytes) × (m ≡ normal_message line) × Without 0 line × (length line ≤ 255))

-- The lines in a queue, in their order
unfoldable pub lines : List Message → List Bytes
lines [] = []
lines (m ∷ q) = if m.priority == exit_priority then lines q else c_str m.text ∷ lines q

pub All-place :
    (P : Message → Type 0) (m : Message) (q : List Message) → P m → All P q → All P (place m q)
unfolding place
All-place P m [] h k = (h, tt)
All-place P m (x ∷ q) h k = elim (Bool-cases (ltb x.priority m.priority)) [
  | inl e ↦ simp (e) (h, k)
  | inr e ↦ simp (e) (k.0, All-place P m q h k.1)
]

pub c_str-line : (line behind : Bytes) → Without 0 line → c_str (line ++ 0 ∷ behind) ≡ line
unfolding cut_at
c_str-line [] behind h = refl
c_str-line (c ∷ line) behind h = ground (arith, c_str-line line behind h.1)

-- The exit message takes no line away and leaves the lines in their order.
pub lines-place_exit : (q : List Message) → lines (place exit_message q) ≡ lines q
unfolding place lines
lines-place_exit [] = refl
lines-place_exit (x ∷ q) = ground (arith, lines-place_exit q)

priority_of : {m : Message} → IsOurs m → (m.priority ≡ 1) ⊎ (m.priority ≡ 10)
priority_of (inl e) = inr (ap (λ (m : Message). m.priority) e)
priority_of (inr (line, e, w, l)) = inl (ap (λ (m : Message). m.priority) e)

-- A line stands behind all others.
pub lines-place_line :
    (line : Bytes) (q : List Message)
    → Without 0 line
    → All IsOurs q
    → lines (place (normal_message line) q) ≡ lines q ++ line ∷ []
unfolding place lines
lines-place_line line [] w h = ap (λ l. l ∷ []) (c_str-line line [] w)
lines-place_line line (x ∷ q) w h = elim (priority_of h.0) [
  | inl e ↦ ground (arith, e, lines-place_line line q w h.1)
  | inr e ↦ ground (arith, e, lines-place_line line q w h.1)
]

pub lines-cons : (m : Message) (q : List Message) → lines (m ∷ q) ≡ lines (m ∷ []) ++ lines q
unfolding lines
lines-cons m q = elim (Bool-cases (m.priority == exit_priority)) [
  | inl e ↦ rw (e) refl
  | inr e ↦ rw (e) refl
]

pub length-lines_one : (m : Message) → length (lines (m ∷ [])) ≤ 1
unfolding lines
length-lines_one m = ground arith

-- Behind the sending of an exit message, the first message of a queue is one.
pub first-place_exit :
    (q : List Message)
    → All IsOurs q
    → (rest : List Message) × (place exit_message q ≡ exit_message ∷ rest)
unfolding place
first-place_exit [] h = ([], refl)
first-place_exit (x ∷ q) (inl e, h) = (place exit_message q, rw (e) refl)
first-place_exit (x ∷ q) (inr (line, e, w, l), h) = (x ∷ q, rw (e) refl)
