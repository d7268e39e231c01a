-- ===== src/Boot.antt =====
-- src/boot/boot.cpp: what the entry in C++ does, in order.
use rp4_demo.Base.{ℕ, ◌+◌, Bool, List, [], ◌∷◌, ◌++◌, if◌then◌else◌, Text, codes}
use Prim.Native.Nat.{bit_or}
use rp4_demo.Hal.Names.{peripheral_base}

-- The managers that are started, in `*_main(k)`.
pub data Main : Type 0 where
  emmcmgr genetmgr audiomgr memfsmgr httpmgr btmgr displaymgr shell : Main

-- A call of the hardware layer, of the kernel or of a manager.
pub data Step : Type 0 where
  puts : Text → Step
  i2c_init dac_init setup_i2s_pins init_48khz_stereo : Step
  set_next_tick_ms : ℕ → Step
  enable_timer_irq irq_unmask irq_mask : Step
  kernel_init kernel_tick timer_ack : Step
  start : Main → Step
  mmio_write : ℕ → ℕ → Step
  -- `while (true) wfi`
  wait_forever : Step

-- The handler of the timer's interrupt.
pub timer_tick_handler : List Step
timer_tick_handler = timer_ack ∷ kernel_tick ∷ []

abbrev pub pm_base : ℕ
pm_base = peripheral_base + 0x100000

abbrev pub pm_passwd : ℕ
pm_passwd = 0x5A000000

-- The initialisation of the hardware; `dac_ok` is the answer of `dac::init`.
pub hardware_init : Bool → List Step
hardware_init dac_ok =
    puts (codes "rp4: boot\n")
    ∷ i2c_init
    ∷ dac_init
    ∷ puts (
        if dac_ok
        then codes "rp4: DAC ok (PCM5122 @ 0x4D)\n"
        else codes "rp4: DAC not found (no HAT?)\n")
    ∷ setup_i2s_pins
    ∷ init_48khz_stereo
    ∷ set_next_tick_ms 1
    ∷ enable_timer_irq
    ∷ irq_unmask
    ∷ puts (codes "rp4: hw init done\n")
    ∷ []

pub launch : List Step
launch =
    kernel_init
    ∷ puts (codes "rp4: kernel ready\n")
    ∷ puts (codes "rp4: launching apps\n")
    ∷ start emmcmgr
    ∷ start genetmgr
    ∷ start audiomgr
    ∷ start memfsmgr
    ∷ start httpmgr
    ∷ start btmgr
    ∷ start displaymgr
    ∷ puts (codes "rp4: apps registered\n")
    ∷ start shell
    ∷ []

-- What follows the shell's return.
pub watchdog_reset : List Step
watchdog_reset =
    puts (codes "rp4: rebooting...\n")
    ∷ irq_mask
    ∷ mmio_write (pm_base + 0x24) (bit_or pm_passwd 1)
    ∷ mmio_write (pm_base + 0x1C) (bit_or pm_passwd 0x20)
    ∷ wait_forever
    ∷ []

pub kernel_main : Bool → List Step
unfolding hardware_init launch watchdog_reset
kernel_main dac_ok = hardware_init dac_ok ++ launch ++ watchdog_reset
