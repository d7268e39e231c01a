-- ===== src/Probes/Emmc.antt =====
-- src/apps/emmcmgr.cpp: the reset of the SD card's controller and the handler of /pps/cmd/mount.
pub mod Reset
use rp4_demo.Base.{
  ℕ, zero, suc, ◌+◌, ◌/◌, ◌%◌, ◌^◌, Bool, true, false, List, [], ◌∷◌, ◌++◌, ◌==◌, if◌then◌else◌,
  Text, codes, to_string,
}
use Prim.Native.Nat.{bit_and, bit_or}
use rp4_demo.Pps.{Event, publish, print, dash}
use rp4_demo.Hal.{Device}
use rp4_demo.Hal.Names.{peripheral_base}

abbrev pub emmc_base : ℕ
emmc_base = peripheral_base + 0x340000

abbrev pub control1 : ℕ
control1 = emmc_base + 0x2C

abbrev pub slotisr_ver : ℕ
slotisr_ver = emmc_base + 0x3C + 0xFC

abbrev emmc_status : Text → Text → Event
emmc_status key value = publish (codes "/pps/emmc/status") key value

module _ (d : Device) where
  open d use {State, load, store}

  -- The loop with `n` rounds left: whether a poll has shown the reset bit clear.
  pub await_reset : ℕ → State → State × Bool
  await_reset zero s = (s, false)
  await_reset (suc n) s =
      let (v, s') = load control1 s in
      let rest = await_reset n s' in if bit_and v (2 ^ 24) == 0 then (s', true) else rest

  pub reset_emmc : State → State × Bool
  unfolding await_reset
  reset_emmc s =
      let (ctrl1, s') = load control1 s in
      await_reset 10000 (store control1 (bit_or ctrl1 (2 ^ 24)) s')

  pub emmc_version : State → ℕ × State
  emmc_version s = let (v, s') = load slotisr_ver s in (v / 2 ^ 16 % 2 ^ 8, s')

  -- The handler of /pps/cmd/mount.
  pub on_mount : State → State × List Event
  unfolding reset_emmc emmc_version
  on_mount s =
      let (s', done) = reset_emmc s in
      let (ver, s'') = emmc_version s' in
      let start = print (codes "emmcmgr: resetting EMMC...\n") in
      if done
      then (
        s'',
        start
            ∷ emmc_status (codes "version") (to_string ver)
            ∷ emmc_status (codes "state") (codes "reset ok")
            ∷ print (codes "emmcmgr: EMMC v")
            ∷ print ((b'0' + ver) % 2 ^ 8 ∷ [])
            ∷ print (codes " " ++ dash ++ codes " needs SD init sequence\n")
            ∷ [],
      )
      else (
        s',
        start
            ∷ emmc_status (codes "state") (codes "reset failed")
            ∷ print (codes "emmcmgr: reset failed\n")
            ∷ [],
      )

-- What the entry publishes of itself behind the subscription.
pub at_start : List Event
at_start = publish (codes "/pps/cmd/mount") (codes "value") (codes "1") ∷ []
