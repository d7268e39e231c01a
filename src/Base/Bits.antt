-- ===== src/Base/Bits.antt =====
-- The bitwise or of numbers that share no digit is their sum.
use Prim.Native.Nat.{
  ℕ, zero, suc, ◌+◌, ◌*◌, ◌/◌, ◌%◌, ◌^◌, ◌≤◌, ◌<◌, max, bit_or, bit_or-bitwise, digits,
}
use mathlib.Core.Path.{◌≡◌, refl, ap, ◌∙◌}
use native.Mathlib.Omega.{arith}
use native.Mathlib.Nat.{two-pow-succ}

digits-zero : (f a : ℕ) → a ≤ f → digits (λ b. b) max f a 0 ≡ a
digits-zero zero a h = omega arith
digits-zero (suc f) zero h = refl
digits-zero (suc f) (suc a) h =
    let rest : digits (λ b. b) max f (suc a / 2) 0 ≡ suc a / 2 =
      digits-zero f (suc a / 2) (omega arith) in
    omega (arith, rest)

pub doubled : (k n : ℕ) → k * 2 ^ suc n ≡ k * 2 ^ n * 2
doubled k n = ap (λ p. k * p) (two-pow-succ n) ∙ omega arith

digits-disjoint :
    (n f k a b : ℕ) → a ≡ k * 2 ^ n → a ≤ f → b < 2 ^ n → digits (λ b. b) max f a b ≡ a + b
digits-disjoint zero f k a zero e h small = digits-zero f a h ∙ omega arith
digits-disjoint zero f k a (suc b) e h small = absurd (omega arith)
digits-disjoint (suc n) zero k a b e h small = omega (arith, h)
digits-disjoint (suc n) (suc f) k zero b e h small = omega arith
digits-disjoint (suc n) (suc f) k (suc a) b e h small =
    let half : suc a / 2 ≡ k * 2 ^ n = omega (arith, e, doubled k n) in
    let even : suc a % 2 ≡ 0 = omega (arith, e, doubled k n) in
    let rest : digits (λ b. b) max f (suc a / 2) (b / 2) ≡ suc a / 2 + b / 2 =
      digits-disjoint n f k (suc a / 2) (b / 2) half (omega (arith, h))
        (omega (arith, small, two-pow-succ n)) in
    omega (arith, rest, even)

pub bit_or-disjoint : (n k b : ℕ) → b < 2 ^ n → bit_or (k * 2 ^ n) b ≡ k * 2 ^ n + b
bit_or-disjoint n k b h =
    bit_or-bitwise (k * 2 ^ n) b
    ∙ digits-disjoint n (k * 2 ^ n) k (k * 2 ^ n) b refl (omega arith) h
