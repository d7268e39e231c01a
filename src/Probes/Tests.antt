-- ===== src/Probes/Tests.antt =====
-- The theorem on the card's reset (src/apps/emmcmgr.cpp) at a concrete input.
use rp4_demo.Base.{ℕ, ◌+◌, ◌^◌, ◌<◌, ◌≡◌, ◌↔◌, true, ltb, if◌then◌else◌}
use rp4_demo.Hal.{Device}
use rp4_demo.Probes.Emmc.{reset_emmc}
use rp4_demo.Probes.Emmc.Reset.{clear_at, reset_started, reset_emmc_iff}

-- A controller that clears the bit at its fourth read.
abbrev slow : Device
slow = record {
  State = ℕ;
  load = λ a s. (if ltb s 3 then 2 ^ 24 else 0, s + 1);
  store = λ a v s. s;
}

reset_emmc_iff_example :
    ((reset_emmc slow 0).1 ≡ true)
    ↔ ((k : ℕ) × (k < 10000) × (clear_at slow k (reset_started slow 0) ≡ true))
reset_emmc_iff_example = reset_emmc_iff slow 0
