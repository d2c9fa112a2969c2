-- ===== src/Drivers/Loading/Unloaded.antt =====
-- What stays behind when the modules are unloaded.
use eltex_summer.Base.{
  ◌<◌, ◌≡◌, refl, inl, inr, Bool, true, false, List, [], ◌∷◌, Bool-cases, arith,
}
use eltex_summer.Drivers.Loading.{
  Loadable, ModuleEvent, load, unload, Slot, step, run, CharDev, CharDevCalls, chardev_init,
  chardev_exit, chardev, Hooks, HookCalls, firewall_init, firewall_exit, firewall, ProcMod,
  ProcCalls, procmod_init, procmod_exit, procmod, netlinkmod_init, netlinkmod_exit, netlinkmod,
  KbLeds, KbCalls, kbleds_init, kbleds_cleanup, kbleds,
}

-- What `init` and `exit` of a module keep of a relation between being loaded and its resources
pub record Keeps (m : Loadable) (P : Bool → m.Held → Type 0) : Type 0 where
  pub init_keeps : (c : m.Calls) (d : m.Held) → P false d → P (m.init c d).0 (m.init c d).1
  pub exit_keeps : (d : m.Held) → P true d → P false (m.exit d)

module _ (m : Loadable) (P : Bool → m.Held → Type 0) (keeps : Keeps m P) where
  step-Keeps :
      (e : ModuleEvent m.Calls) (b : Bool) (d : m.Held)
      → P b d
      → P
          (step m e (record { loaded = b; held = d })).loaded
          (step m e (record { loaded = b; held = d })).held
  unfolding step
  step-Keeps (load c) true d p = p
  step-Keeps (load c) false d p = keeps.init_keeps c d p
  step-Keeps unload true d p = keeps.exit_keeps d p
  step-Keeps unload false d p = p

  run-Keeps :
      (events : List (ModuleEvent m.Calls)) (s : Slot m.Held)
      → P s.loaded s.held
      → P (run m events s).loaded (run m events s).held
  unfolding run
  run-Keeps [] s p = p
  run-Keeps (e ∷ events) s p = run-Keeps events (step m e s) (step-Keeps e s.loaded s.held p)

-- All or none of the resources are there, as the module is loaded or not.
abbrev pub AllOf : Bool → CharDev → Type 0
AllOf b d = (d.buffer ≡ b) × (d.chrdev ≡ b) × (d.class ≡ b) × (d.device ≡ b)

abbrev pub BothOf : Bool → Hooks → Type 0
BothOf b d = (d.hook ≡ b) × (d.entry ≡ b)

-- The file may be missing while the module is loaded.
abbrev pub AtMost : Bool → ProcMod → Type 0
AtMost b d = (d.msg ≡ b) × (b ≡ false → d.entry ≡ false)

abbrev pub WithTimer : Bool → KbLeds → Type 0
WithTimer b d = (d.timer ≡ b) × (d.objects ≡ d.mode_files)

chardev-Keeps : Keeps chardev AllOf
unfolding chardev_init chardev_exit
chardev-Keeps = record {
  init_keeps = λ c d p. ground arith;
  exit_keeps = λ d p. (refl, refl, refl, refl);
}

firewall-Keeps : Keeps firewall BothOf
unfolding firewall_init firewall_exit
firewall-Keeps = record { init_keeps = λ c d p. ground arith; exit_keeps = λ d p. (refl, refl) }

procmod_init-AtMost :
    (c : ProcCalls) (d : ProcMod)
    → AtMost false d
    → AtMost (procmod_init c d).0 (procmod_init c d).1
unfolding procmod_init
procmod_init-AtMost c d p = elim (Bool-cases c.kmalloc) [
  | inl y ↦ rw (y) (refl, λ e. absurd (cc))
  | inr n ↦ rw (n) p
]

procmod-Keeps : Keeps procmod AtMost
unfolding procmod_exit
procmod-Keeps = record { init_keeps = procmod_init-AtMost; exit_keeps = λ d p. (refl, λ e. refl) }

netlinkmod-Keeps : Keeps netlinkmod (λ b d. d ≡ b)
unfolding netlinkmod_init netlinkmod_exit
netlinkmod-Keeps = record { init_keeps = λ c d p. ground arith; exit_keeps = λ d p. refl }

kbleds_init-WithTimer :
    (c : KbCalls) (d : KbLeds)
    → WithTimer false d
    → WithTimer (kbleds_init c d).0 (kbleds_init c d).1
unfolding kbleds_init
kbleds_init-WithTimer c d p = ground (arith, p.0, p.1)

kbleds-Keeps : Keeps kbleds WithTimer
unfolding kbleds_cleanup
kbleds-Keeps = record { init_keeps = kbleds_init-WithTimer; exit_keeps = λ d p. (refl, p.1) }

abbrev pub no_chardev : Slot CharDev
no_chardev = record {
  loaded = false;
  held = record { buffer = false; chrdev = false; class = false; device = false };
}

abbrev pub no_hooks : Slot Hooks
no_hooks = record { loaded = false; held = record { hook = false; entry = false } }

abbrev pub no_proc : Slot ProcMod
no_proc = record { loaded = false; held = record { msg = false; entry = false } }

abbrev pub no_socket : Slot Bool
no_socket = record { loaded = false; held = false }

abbrev pub no_leds : Slot KbLeds
no_leds = record { loaded = false; held = record { timer = false; objects = 0; mode_files = 0 } }

-- Whatever loadings and unloadings of each module there are, and whichever calls fail in them: while it is not
-- loaded, the kernel holds no resource of chardev, firewall, procmod and netlinkmod, and no timer of
-- kbleds. While it is loaded, all are held, except that the file of procmod may be missing.
pub run-unloaded :
    (e1 : List (ModuleEvent CharDevCalls)) (e2 : List (ModuleEvent HookCalls))
    (e3 : List (ModuleEvent ProcCalls)) (e4 : List (ModuleEvent Bool))
    (e5 : List (ModuleEvent KbCalls))
    → AllOf (run chardev e1 no_chardev).loaded (run chardev e1 no_chardev).held
      × BothOf (run firewall e2 no_hooks).loaded (run firewall e2 no_hooks).held
      × AtMost (run procmod e3 no_proc).loaded (run procmod e3 no_proc).held
      × ((run netlinkmod e4 no_socket).held ≡ (run netlinkmod e4 no_socket).loaded)
      × WithTimer (run kbleds e5 no_leds).loaded (run kbleds e5 no_leds).held
run-unloaded e1 e2 e3 e4 e5 = (
  run-Keeps chardev AllOf chardev-Keeps e1 no_chardev (refl, refl, refl, refl),
  run-Keeps firewall BothOf firewall-Keeps e2 no_hooks (refl, refl),
  run-Keeps procmod AtMost procmod-Keeps e3 no_proc (refl, λ e. refl),
  run-Keeps netlinkmod (λ b d. d ≡ b) netlinkmod-Keeps e4 no_socket refl,
  run-Keeps kbleds WithTimer kbleds-Keeps e5 no_leds (refl, refl),
)

-- There is a file "mode".
SomeFile : Bool → KbLeds → Type 0
SomeFile b d = 0 < d.mode_files

SomeFile-Keeps : Keeps kbleds SomeFile
unfolding kbleds_init kbleds_cleanup SomeFile
SomeFile-Keeps = record { init_keeps = λ c d p. ground arith; exit_keeps = λ d p. p }

init_file :
    (c : KbCalls) (d : KbLeds) → (kbleds_init c d).0 ≡ true → 0 < (kbleds_init c d).1.mode_files
unfolding kbleds_init
init_file c d ok = ground arith

-- The defect: once kbleds has been loaded, a file stays, whatever loadings and unloadings follow.
pub kbleds_leaves_file :
    (events : List (ModuleEvent KbCalls)) (c : KbCalls) (s : Slot KbLeds)
    → s.loaded ≡ false
    → (kbleds_init c s.held).0 ≡ true
    → 0 < (run kbleds (load c ∷ events) s).held.mode_files
unfolding run step SomeFile
kbleds_leaves_file events c s e ok =
    run-Keeps kbleds SomeFile SomeFile-Keeps events (step kbleds (load c) s) (one_file c s e ok)
  where
    one_file :
        (c : KbCalls) (s : Slot KbLeds)
        → s.loaded ≡ false
        → (kbleds_init c s.held).0 ≡ true
        → 0 < (step kbleds (load c) s).held.mode_files
    one_file c s e ok = rw (e) (init_file c s.held ok)
