-- ===== src/Drivers/Leds.antt =====
-- module5/03/kbleds.c: the mode in which the keyboard lights blink.
use eltex_summer.Base.{
  ℕ, zero, suc, ◌≤◌, ◌≡◌, refl, ◌⊎◌, inl, inr, Bool, true, false, Option, none, some, List, [], ◌∷◌,
  ◌++◌, Bytes, leb, ◌==◌, if◌then◌else◌, Bool-cases, arith,
}
use eltex_summer.Base.Int.{ℤ, pos, negsuc}
use eltex_summer.Base.Scan.{decimal, scan_signed, scan_signed-decimal}

-- `blink_mode` and `current_leds`, and the values that the driver was told by KDSETLED, the last one first
pub record Leds : Type 0 where
  pub blink_mode : ℕ
  pub current_leds : ℕ
  pub told : List ℕ

-- RESTORE_LEDS
abbrev pub restore_leds : ℕ
restore_leds = 255

unfoldable pub my_timer_func : Leds → Leds
my_timer_func l =
    let next = if l.current_leds == l.blink_mode then restore_leds else l.blink_mode in
    record l { current_leds = next; told = next ∷ l.told }

unfoldable pub mode_show : Leds → Bytes
mode_show l = decimal l.blink_mode ++ 10 ∷ []

-- What `mode_store` returns: the count, or -EINVAL
pub data Stored : Type 0 where
  count_of : ℕ → Stored
  einval : Stored

-- A mode that `mode_store` has read
unfoldable pub set_mode : ℤ → Leds → Leds
set_mode (negsuc n) l = l
set_mode (pos zero) l = record {
  blink_mode = 0;
  current_leds = restore_leds;
  told = restore_leds ∷ l.told;
}
set_mode (pos (suc n)) l = if leb (suc n) 7 then record l { blink_mode = suc n } else l

unfoldable pub store_number : Option ℤ → ℕ → Leds → Stored × Leds
store_number none count l = (einval, l)
store_number (some n) count l = (count_of count, set_mode n l)

unfoldable pub mode_store : Bytes → ℕ → Leds → Stored × Leds
mode_store buf count l = store_number (scan_signed buf) count l

-- A call of the timer, or a write to the file "mode"
pub data LedEvent : Type 0 where
  timer : LedEvent
  write : Bytes → ℕ → LedEvent

unfoldable pub led_event : LedEvent → Leds → Leds
led_event timer l = my_timer_func l
led_event (write buf count) l = (mode_store buf count l).1

unfoldable pub led_events : List LedEvent → Leds → Leds
led_events [] l = l
led_events (e ∷ events) l = led_events events (led_event e l)

-- A mode from 0 to 7, and a driver that was only told such modes and RESTORE_LEDS
unfoldable pub IsMode : ℕ → Type 0
IsMode n = (n ≤ 7) ⊎ (n ≡ restore_leds)

unfoldable pub AreModes : List ℕ → Type 0
AreModes [] = Unit
AreModes (n ∷ told) = IsMode n × AreModes told

pub record IsLit (l : Leds) : Type 0 where
  pub mode : l.blink_mode ≤ 7
  pub leds : AreModes l.told

set_mode-IsLit : (n : ℤ) (l : Leds) → IsLit l → IsLit (set_mode n l)
unfolding set_mode AreModes IsMode
set_mode-IsLit (negsuc n) l h = h
set_mode-IsLit (pos zero) l h = record { mode = omega arith; leds = (inr refl, h.leds) }
set_mode-IsLit (pos (suc n)) l h = elim (Bool-cases (leb (suc n) 7)) [
  | inl e ↦ simp (e) (record { mode = ground arith; leds = h.leds })
  | inr e ↦ simp (e) h
]

store_number-IsLit :
    (o : Option ℤ) (count : ℕ) (l : Leds) → IsLit l → IsLit (store_number o count l).1
unfolding store_number
store_number-IsLit none count l h = h
store_number-IsLit (some n) count l h = set_mode-IsLit n l h

led_event-IsLit : (e : LedEvent) (l : Leds) → IsLit l → IsLit (led_event e l)
unfolding led_event my_timer_func mode_store AreModes IsMode
led_event-IsLit timer l h = record {
  mode = h.mode;
  leds = (next (l.current_leds == l.blink_mode), h.leds);
}
  where
    next :
        (b : Bool)
        → ((if b then restore_leds else l.blink_mode) ≤ 7)
          ⊎ ((if b then restore_leds else l.blink_mode) ≡ restore_leds)
    next true = inr refl
    next false = inl h.mode
led_event-IsLit (write buf count) l h = store_number-IsLit (scan_signed buf) count l h

-- Whatever is written to the file and however often the timer runs: from a state with a mode of at most 7
-- in which the driver was only told such modes and RESTORE_LEDS, the mode stays at most 7 and the
-- driver is only told such values.
pub led_events-IsLit : (events : List LedEvent) (l : Leds) → IsLit l → IsLit (led_events events l)
unfolding led_events
led_events-IsLit [] l h = h
led_events-IsLit (e ∷ events) l h = led_events-IsLit events (led_event e l) (led_event-IsLit e l h)

-- A mode from 0 to 7 that is written in digits is accepted and shown again.
pub mode_show-mode_store :
    (n count : ℕ) (l : Leds)
    → n ≤ 7
    → ((mode_store (decimal n) count l).0 ≡ count_of count)
      × (mode_show (mode_store (decimal n) count l).1 ≡ decimal n ++ 10 ∷ [])
unfolding mode_store mode_show store_number set_mode
mode_show-mode_store n count l h = rw (scan_signed-decimal n) (refl, shown n h)
  where
    shown :
        (n : ℕ) → n ≤ 7 → decimal (set_mode (pos n) l).blink_mode ++ 10 ∷ [] ≡ decimal n ++ 10 ∷ []
    shown zero h = refl
    shown (suc n) h = let e : leb (suc n) 7 ≡ true = ground arith in simp (e) refl
