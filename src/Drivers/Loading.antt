-- ===== src/Drivers/Loading.antt =====
-- The loading and unloading of the kernel modules: the functions init and exit of module5/02/procmod.c,
-- module5/03/kbleds.c, module5/04/chardev.c, module5/05/netlinkmod.c and module5/06/firewall.c. For each
-- module, the resources that the kernel holds for it are listed; whether a call succeeds is an argument.
pub mod Unloaded
use eltex_summer.Base.{ℕ, ◌+◌, ◌-◌, Bool, true, false, List, [], ◌∷◌, if◌then◌else◌}

-- A module: its resources, the outcomes of the calls in its `init`, and its two functions. `true` is the
-- result 0 of `init`.
pub record Loadable : Type 1 where
  pub Held : Type 0
  pub Calls : Type 0
  pub init : Calls → Held → Bool × Held
  pub exit : Held → Held

-- insmod and rmmod
pub data ModuleEvent (C : Type 0) : Type 0 where
  load : C → ModuleEvent C
  unload : ModuleEvent C

pub record Slot (H : Type 0) : Type 0 where
  pub loaded : Bool
  pub held : H

-- The kernel calls `init` of a module that is not loaded, and `exit` of one that is.
module _ (m : Loadable) where
  open m use {Held, Calls, init, exit}

  unfoldable pub step : ModuleEvent Calls → Slot Held → Slot Held
  step (load c) s =
      let (ok, held) = init c s.held in if s.loaded then s else record { loaded = ok; held = held }
  step unload s = if s.loaded then record { loaded = false; held = exit s.held } else s

  unfoldable pub run : List (ModuleEvent Calls) → Slot Held → Slot Held
  run [] s = s
  run (e ∷ events) s = run events (step e s)

-- module5/04: `device_buffer`, the device number, the class and the device
pub record CharDev : Type 0 where
  pub buffer : Bool
  pub chrdev : Bool
  pub class : Bool
  pub device : Bool

pub record CharDevCalls : Type 0 where
  pub kmalloc : Bool
  pub register_chrdev : Bool
  pub class_create : Bool
  pub device_create : Bool

unfoldable pub chardev_init : CharDevCalls → CharDev → Bool × CharDev
chardev_init c d =
    let d1 = record d { buffer = true } in
    let d2 = record d1 { chrdev = true } in
    let d3 = record d2 { class = true } in
    if c.kmalloc
    then (if c.register_chrdev
        then (if c.class_create
            then (if c.device_create
                then (true, record d3 { device = true })
                else (false, record d3 { class = false; chrdev = false; buffer = false }))
            else (false, record d2 { chrdev = false; buffer = false }))
        else (false, record d1 { buffer = false }))
    else (false, d)

unfoldable pub chardev_exit : CharDev → CharDev
chardev_exit d = record d { device = false; class = false; chrdev = false; buffer = false }

-- module5/06: the hook and the file in /proc
pub record Hooks : Type 0 where
  pub hook : Bool
  pub entry : Bool

pub record HookCalls : Type 0 where
  pub register_hook : Bool
  pub proc_create : Bool

unfoldable pub firewall_init : HookCalls → Hooks → Bool × Hooks
firewall_init c d =
    let d1 = record d { hook = true } in
    if c.register_hook
    then (if c.proc_create
        then (true, record d1 { entry = true })
        else (false, record d1 { hook = false }))
    else (false, d)

unfoldable pub firewall_exit : Hooks → Hooks
firewall_exit d = record d { entry = false; hook = false }

-- module5/02: `msg` and the file in /proc, whose `proc_create` is not looked at
pub record ProcMod : Type 0 where
  pub msg : Bool
  pub entry : Bool

pub record ProcCalls : Type 0 where
  pub kmalloc : Bool
  pub proc_create : Bool

unfoldable pub procmod_init : ProcCalls → ProcMod → Bool × ProcMod
procmod_init c d =
    if c.kmalloc
    then (true, record d { msg = true; entry = if c.proc_create then true else d.entry })
    else (false, d)

unfoldable pub procmod_exit : ProcMod → ProcMod
procmod_exit d = record d { entry = false; msg = false }

-- module5/05: whether the socket `nl_sk` is there
unfoldable pub netlinkmod_init : Bool → Bool → Bool × Bool
netlinkmod_init create d = if create then (true, true) else (false, d)

unfoldable pub netlinkmod_exit : Bool → Bool
netlinkmod_exit d = false

-- module5/03: the timer, and how many objects "kbleds" and files "mode" there are
pub record KbLeds : Type 0 where
  pub timer : Bool
  pub objects : ℕ
  pub mode_files : ℕ

pub record KbCalls : Type 0 where
  pub console : Bool
  pub driver : Bool
  pub kobject_create : Bool
  pub sysfs_create_file : Bool

unfoldable pub kbleds_init : KbCalls → KbLeds → Bool × KbLeds
kbleds_init c d =
    let d1 = record d { objects = d.objects + 1 } in
    if c.console
    then (if c.driver
        then (if c.kobject_create
            then (if c.sysfs_create_file
                then (true, record d1 { mode_files = d.mode_files + 1; timer = true })
                else (false, record d1 { objects = d1.objects - 1 }))
            else (false, d))
        else (false, d))
    else (false, d)

-- The file is looked for in another directory than that in which it was made, and the object is not put.
unfoldable pub kbleds_cleanup : KbLeds → KbLeds
kbleds_cleanup d = record d { timer = false }

abbrev pub chardev : Loadable
chardev = record { Held = CharDev; Calls = CharDevCalls; init = chardev_init; exit = chardev_exit }

abbrev pub firewall : Loadable
firewall = record { Held = Hooks; Calls = HookCalls; init = firewall_init; exit = firewall_exit }

abbrev pub procmod : Loadable
procmod = record { Held = ProcMod; Calls = ProcCalls; init = procmod_init; exit = procmod_exit }

abbrev pub netlinkmod : Loadable
netlinkmod = record { Held = Bool; Calls = Bool; init = netlinkmod_init; exit = netlinkmod_exit }

abbrev pub kbleds : Loadable
kbleds = record { Held = KbLeds; Calls = KbCalls; init = kbleds_init; exit = kbleds_cleanup }
