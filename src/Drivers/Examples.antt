-- ===== src/Drivers/Examples.antt =====
-- The kernel modules on small texts.
use eltex_summer.Base.{◌≡◌, true, false, [], ◌∷◌, codes, take, min, replicate, arith}
use eltex_summer.Drivers.CharDevice.{
  Device, all_copied, bytes, chardev_write, reads, total, reads-chardev_write,
}
use eltex_summer.Drivers.ProcFile.{ProcData}
use eltex_summer.Drivers.Leds.{Leds, IsLit, AreModes}
use eltex_summer.Drivers.Loading.{
  load, unload, step, run, CharDevCalls, chardev, firewall, procmod, netlinkmod, kbleds,
  chardev_init, firewall_init, procmod_init, netlinkmod_init, kbleds_init,
}
use eltex_summer.Drivers.Loading.Unloaded.{
  AllOf, BothOf, AtMost, WithTimer, no_chardev, no_hooks, no_proc, no_socket, no_leds, run-unloaded,
}

abbrev new_device : Device
new_device = record { device_buffer = replicate 128 0; buffer_len = 0 }

reads-chardev_write_example :
    ((chardev_write all_copied (codes "hello") 5 new_device).0 ≡ bytes (min 5 127))
    × (reads (2 ∷ 9 ∷ []) 0 (chardev_write all_copied (codes "hello") 5 new_device).1
        ≡ take (total (2 ∷ 9 ∷ [])) (take (min 5 127) (codes "hello")))
reads-chardev_write_example =
    reads-chardev_write (codes "hello") 5 (2 ∷ 9 ∷ []) new_device (omega arith)

abbrev no_message : ProcData
no_message = record { msg = 0 ∷ []; len = 0; temp = 0 }

abbrev hello : ProcData
hello = record { msg = codes "hello"; len = 5; temp = 5 }

abbrev dark : Leds
dark = record { blink_mode = 0; current_leds = 0; told = [] }

dark-IsLit : IsLit dark
unfolding AreModes
dark-IsLit = record { mode = omega arith; leds = tt }

abbrev device_calls : CharDevCalls
device_calls = record {
  kmalloc = true;
  register_chrdev = true;
  class_create = true;
  device_create = false;
}

-- The device could not be created; the others are loaded and unloaded.
run-unloaded_example :
    AllOf false (run chardev (load device_calls ∷ []) no_chardev).held
    × BothOf false
        (run firewall
          (load (record { register_hook = true; proc_create = true }) ∷ (unload ∷ []))
          no_hooks).held
    × AtMost false
        (run procmod
          (load (record { kmalloc = true; proc_create = true }) ∷ (unload ∷ []))
          no_proc).held
    × ((run netlinkmod (load true ∷ (unload ∷ [])) no_socket).held ≡ false)
    × WithTimer false
        (run kbleds
          (load (record {
            console = true;
            driver = true;
            kobject_create = true;
            sysfs_create_file = true;
          })
            ∷ (unload ∷ []))
          no_leds).held
unfolding run step chardev_init firewall_init procmod_init netlinkmod_init kbleds_init
run-unloaded_example =
    run-unloaded (load device_calls ∷ [])
      (load (record { register_hook = true; proc_create = true }) ∷ (unload ∷ []))
      (load (record { kmalloc = true; proc_create = true }) ∷ (unload ∷ []))
      (load true ∷ (unload ∷ []))
      (load (record {
        console = true;
        driver = true;
        kobject_create = true;
        sysfs_create_file = true;
      })
        ∷ (unload ∷ []))
