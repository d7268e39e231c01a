-- ===== src/Hal/System.antt =====
-- The interrupt, timer, mailbox and reboot calls of src/hal/hal.cppm. The processor's instructions and what
-- VideoCore does to the message are behind parameters.
use rp4_demo.Base.{
  ℕ, zero, suc, ◌+◌, ◌*◌, ◌/◌, ◌%◌, ◌^◌, Bool, false, Option, none, some, List, [], ◌∷◌, ◌==◌,
  if◌then◌else◌, codes,
}
use Prim.Native.Nat.{bit_or}
use rp4_demo.Hal.{Device, u32_mod}
use rp4_demo.Hal.Names.{peripheral_base}
use rp4_demo.Hal.Pins.{poll, puts}

abbrev pub arm_local_base : ℕ
arm_local_base = 0xFF800000

abbrev pub mbox_base : ℕ
mbox_base = peripheral_base + 0xB880

abbrev pub read_reg : ℕ
read_reg = mbox_base

abbrev pub status_reg : ℕ
status_reg = mbox_base + 0x18

abbrev pub write_reg : ℕ
write_reg = mbox_base + 0x20

-- The bits 31 and 30 of the status.
abbrev pub full : ℕ
full = 0x80000000

abbrev pub empty : ℕ
empty = 0x40000000

-- The instructions that the code writes out, on the state of the devices.
pub record Instructions (d : Device) : Type 0 where
  -- `mrs cntfrq_el0`
  pub frequency : ℕ
  -- `msr cntp_tval_el0` and `msr cntp_ctl_el0`
  pub set_tval : ℕ → d.State → d.State
  pub set_ctl : ℕ → d.State → d.State
  -- `msr daifclr` and `msr daifset`
  pub daif_clear : ℕ → d.State → d.State
  pub daif_set : ℕ → d.State → d.State
  -- `smc #0` with a function in `w0`
  pub smc : ℕ → d.State → d.State

module _ (d : Device) where
  open d use {State, load, store}

  pub enable_timer_irq : State → State
  enable_timer_irq s = store (arm_local_base + 0x40) 0x02 s

  module _ (cpu : Instructions d) where
    pub unmask : State → State
    unmask s = cpu.daif_clear 2 s

    pub mask : State → State
    mask s = cpu.daif_set 2 s

    pub set_next_tick_ms : ℕ → State → State
    set_next_tick_ms ms s = cpu.set_ctl 1 (cpu.set_tval (cpu.frequency * ms % 2 ^ 64 / 1000) s)

    pub ack : State → State
    unfolding set_next_tick_ms
    ack s = set_next_tick_ms 1 s

  -- The message: the address of the buffer, with its low four bits as the channel.
  pub channel_message : ℕ → ℕ
  channel_message buf_at = bit_or (buf_at / 16 * 16 % u32_mod) 8

  -- The loop for the answer, on fuel: whether word 1 of the buffer tells of success.
  pub await_answer : ℕ → ℕ → State → Option (Bool × State)
  unfolding channel_message
  await_answer zero buf_at s = none
  await_answer (suc f) buf_at s = elim (poll d f status_reg empty false s) [
    | none ↦ none
    | some s1 ↦
        let (v, s2) = load read_reg s1 in
        let rest = await_answer f buf_at s2 in
        if v == channel_message buf_at
        then (let (code, s3) = load (buf_at + 4) s2 in some (code == 0x80000000, s3))
        else rest
  ]

  -- `mbox::call`
  pub call : ℕ → ℕ → State → Option (Bool × State)
  unfolding await_answer
  call fuel buf_at s = elim (poll d fuel status_reg full false s) [
    | none ↦ none
    | some s1 ↦ await_answer fuel buf_at (store write_reg (channel_message buf_at) s1)
  ]

  -- `buf[0] = ...; buf[1] = ...`
  pub store_words : ℕ → List ℕ → State → State
  store_words at [] s = s
  store_words at (w ∷ ws) s = store_words (at + 4) ws (store at w s)

  abbrev pub tryboot_words : List ℕ
  tryboot_words = 8 * 4 ∷ 0 ∷ 0x00038058 ∷ 4 ∷ 0 ∷ 0x14 ∷ 0 ∷ 0 ∷ []

  pub set_tryboot_flag : ℕ → ℕ → State → Option (Bool × State)
  unfolding call store_words
  set_tryboot_flag fuel buf_at s = call fuel buf_at (store_words buf_at tryboot_words s)

  module _ (cpu : Instructions d) (fuel : ℕ) where
    pub psci_reset : State → State
    psci_reset s = cpu.smc 0x84000009 s

    -- What the reboots leave, none of which returns. The answer of the mailbox is dropped.
    pub to_kodi : ℕ → State → Option State
    unfolding psci_reset set_tryboot_flag
    to_kodi buf_at s = elim (puts d fuel (codes "reboot: setting tryboot flag\n") s) [
      | none ↦ none
      | some s1 ↦ elim (set_tryboot_flag fuel buf_at s1) [
        | none ↦ none
        | some (answered, s2) ↦ elim (puts d fuel (codes "reboot: PSCI SYSTEM_RESET\n") s2) [
          | none ↦ none
          | some s3 ↦ some (psci_reset s3)
        ]
      ]
    ]

    pub to_microkernel : State → Option State
    unfolding psci_reset
    to_microkernel s = elim (puts d fuel (codes "reboot: normal reset\n") s) [
      | none ↦ none
      | some s1 ↦ some (psci_reset s1)
    ]
