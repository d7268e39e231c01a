-- ===== src/Display/Mailbox.antt =====
-- `mbox::call` of src/apps/displaymgr.cpp, over the registers and the buffer, on fuel.
use rp4_demo.Base.{
  ℕ, zero, suc, ◌+◌, ◌*◌, ◌/◌, ◌%◌, Bool, false, Option, none, some, ◌==◌, if◌then◌else◌,
}
use Prim.Native.Nat.{bit_or}
use rp4_demo.Hal.{Device, u32_mod}
use rp4_demo.Hal.Pins.{poll}
use rp4_demo.Hal.System.{mbox_base}

-- Bits 31 and 30 of the status.
abbrev full : ℕ
full = 0x80000000

abbrev empty : ℕ
empty = 0x40000000

abbrev channel : ℕ
channel = 8

module _ (d : Device) where
  open d use {State, load, store}

  -- The loop for the answer: the first one on the channel, of whichever message.
  pub response : ℕ → ℕ → State → Option (Bool × State)
  response zero buf_at s = none
  response (suc f) buf_at s = elim (poll d f (mbox_base + 0x18) empty false s) [
    | none ↦ none
    | some s1 ↦
        let (resp, s2) = load mbox_base s1 in
        let rest = response f buf_at s2 in
        if resp % 16 == channel
        then (let (code, s3) = load (buf_at + 4) s2 in some (code == 0x80000000, s3))
        else rest
  ]

  pub mailbox_call : ℕ → ℕ → State → Option (Bool × State)
  unfolding response
  mailbox_call fuel buf_at s = elim (poll d fuel (mbox_base + 0x18) full false s) [
    | none ↦ none
    | some s1 ↦
        response fuel buf_at
          (store (mbox_base + 0x20) (bit_or (buf_at / 16 * 16) channel % u32_mod) s1)
  ]
