-- ===== src/Probes/Emmc/Reset.antt =====
-- The wait for the controller's reset in src/apps/emmcmgr.cpp.
use rp4_demo.Base.{
  ℕ, zero, suc, ◌^◌, ◌<◌, ◌≡◌, ◌↔◌, inl, inr, refl, sym, ◌∙◌, arith, Bool, true, false, ◌==◌,
  Bool-cases,
}
use mathlib.Core.Bool.{false≢true}
use Prim.Native.Nat.{bit_and, bit_or}
use rp4_demo.Hal.{Device}
use rp4_demo.Probes.Emmc.{await_reset, reset_emmc, control1}

module _ (d : Device) where
  open d use {State, load, store}

  -- Whether the poll that follows `k` earlier ones shows the reset bit clear.
  pub clear_at : ℕ → State → Bool
  clear_at zero s = bit_and (load control1 s).0 (2 ^ 24) == 0
  clear_at (suc k) s = clear_at k (load control1 s).1

  -- The device as `reset_emmc` leaves it with the reset bit set.
  abbrev pub reset_started : State → State
  reset_started s = let r = load control1 s in store control1 (bit_or r.0 (2 ^ 24)) r.1

  -- A poll that shows the bit set.
  await_reset-set :
      (n : ℕ) (s : State)
      → (bit_and (load control1 s).0 (2 ^ 24) == 0) ≡ false
      → (await_reset d (suc n) s).1 ≡ (await_reset d n (load control1 s).1).1
  unfolding await_reset
  await_reset-set n s e = rw e refl

  await_reset-clear :
      (n k : ℕ) (s : State) → k < n → clear_at k s ≡ true → (await_reset d n s).1 ≡ true
  unfolding await_reset clear_at
  await_reset-clear zero k s h c = ground arith
  await_reset-clear (suc n) zero s h c = rw c refl
  await_reset-clear (suc n) (suc k) s h c =
      elim (Bool-cases (bit_and (load control1 s).0 (2 ^ 24) == 0)) [
        | inl e ↦ rw e refl
        | inr e ↦ await_reset-set n s e ∙ await_reset-clear n k (load control1 s).1 (omega arith) c
      ]

  clear-await_reset :
      (n : ℕ) (s : State) → (await_reset d n s).1 ≡ true → (k : ℕ) × (k < n) × (clear_at k s ≡ true)
  unfolding await_reset clear_at
  clear-await_reset zero s h = elim (false≢true h) [ ]
  clear-await_reset (suc n) s h = elim (Bool-cases (bit_and (load control1 s).0 (2 ^ 24) == 0)) [
    | inl e ↦ (0, omega arith, e)
    | inr e ↦
        let (k, low, c) =
          clear-await_reset n (load control1 s).1 (sym (await_reset-set n s e) ∙ h) in
        (suc k, omega arith, c)
  ]

-- The reset succeeds where one of the 10000 polls behind its start shows the bit clear, and only there:
-- a device that clears it in time is waited for, and a device that never does so does not hold the manager up.
pub reset_emmc_iff :
    (d : Device) (s : d.State)
    → ((reset_emmc d s).1 ≡ true)
      ↔ ((k : ℕ) × (k < 10000) × (clear_at d k (reset_started d s) ≡ true))
unfolding reset_emmc
reset_emmc_iff d s = (
  λ h. clear-await_reset d 10000 (reset_started d s) h,
  λ h. await_reset-clear d 10000 h.0 (reset_started d s) h.1 h.2,
)
