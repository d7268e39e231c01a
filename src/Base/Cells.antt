-- ===== src/Base/Cells.antt =====
-- Memories as functions of an address.
use Prim.Native.Nat.{ℕ}
use mathlib.Core.Path.{◌≡◌}
use mathlib.Core.Logic.{◌≢◌}
use native.Mathlib.Omega.{arith}
use rp4_demo.Base.Tests.{◌==◌, if◌then◌else◌}

module _ {ℓ} {A : Type ℓ} where
  abbrev pub write : ℕ → A → (ℕ → A) → ℕ → A
  write p v m q = if q == p then v else m q

  pub write_same : (p : ℕ) (v : A) (m : ℕ → A) → write p v m p ≡ v
  write_same p v m = ground arith

  pub write_other : (p q : ℕ) (v : A) (m : ℕ → A) → q ≢ p → write p v m q ≡ m q
  write_other p q v m h = ground arith
