-- ===== src/Shim/Division.antt =====
-- The 128-bit division of src/shim/libc_shim.c.
use rp4_demo.Base.{
  ℕ, zero, suc, ◌+◌, ◌-◌, ◌*◌, ◌/◌, ◌%◌, ◌^◌, ◌≤◌, ◌<◌, ◌≡◌, ap, sym, ◌∙◌, leb, ◌==◌, if◌then◌else◌,
  arith, Bool-cases, inl, inr, bit_or-disjoint, doubled,
}
use Prim.Native.Nat.{bit_or}
use native.Mathlib.Nat.{
  div-div-eq-div-mul, pow-suc, div-one, div-le_self, two-pow-succ, div-eq_of_lt-le, div-zero,
  div-add-mod', div-eq_of_lt,
}

abbrev pub u128 : ℕ
u128 = 2 ^ 128

-- The loop of `__udivti3` with the bits below `i` still to come.
pub divide : ℕ → ℕ → ℕ → ℕ → ℕ → ℕ
divide zero a b q r = q
divide (suc i) a b q r =
    let r' = bit_or (r * 2 % u128) (a / 2 ^ i % 2) in
    let fits = leb b r' in
    divide i a b (if fits then bit_or q (2 ^ i) else q) (if fits then r' - b else r')

pub udivti3 : ℕ → ℕ → ℕ
unfolding divide
udivti3 a b = if b == 0 then 0 else divide 128 a b 0 0

-- `a - __udivti3(a, b) * b`
pub umodti3 : ℕ → ℕ → ℕ
unfolding udivti3
umodti3 a b = (a + (u128 - udivti3 a b * b % u128)) % u128

pow-pos : (n : ℕ) → 0 < 2 ^ n
pow-pos zero = omega arith
pow-pos (suc n) = omega (arith, pow-pos n, two-pow-succ n)

halved : (a i : ℕ) → a / 2 ^ suc i ≡ a / 2 ^ i / 2
halved a i = ap (λ p. a / p) (pow-suc 2 i) ∙ sym (div-div-eq-div-mul a (2 ^ i) 2)

-- A quotient from its defining property.
quotient : (a b k r : ℕ) → a ≡ k * b + r → r < b → a / b ≡ k
quotient a b k r e h = div-eq_of_lt-le b (omega (arith, e)) (omega (arith, e, h))

pub divide_lem :
    (i a b k r : ℕ)
    → a < 2 ^ 128
    → a / 2 ^ i ≡ k * b + r
    → r < b
    → divide i a b (k * 2 ^ i) r ≡ a / b
unfolding divide
divide_lem zero a b k r small e h = omega arith ∙ sym (quotient a b k r (sym (div-one a) ∙ e) h)
divide_lem (suc i) a b k r small e h =
    let bit : ℕ = a / 2 ^ i % 2 in
    let above : a / 2 ^ i ≡ (k * b + r) * 2 + bit = omega (arith, e, halved a i) in
    let below : r * 2 ≤ a = omega (arith, e, halved a i, div-le_self a (2 ^ i)) in
    let no_wrap : r * 2 % u128 ≡ r * 2 ^ 1 = omega (arith, below, small) in
    let shifted : bit_or (r * 2 % u128) bit ≡ r * 2 + bit =
      ap (λ t. bit_or t bit) no_wrap ∙ bit_or-disjoint 1 r bit (omega arith) ∙ omega arith in
    elim (Bool-cases (leb b (r * 2 + bit))) [
      | inl fits ↦
          let le : b ≤ r * 2 + bit = ground (arith, fits) in
          let q : bit_or (k * 2 ^ suc i) (2 ^ i) ≡ (k * 2 + 1) * 2 ^ i =
            bit_or-disjoint (suc i) k (2 ^ i) (omega (arith, two-pow-succ i, pow-pos i))
            ∙ omega (arith, doubled k i) in
          rw (shifted, fits, q)
            (divide_lem i a b (k * 2 + 1) (r * 2 + bit - b) small (omega (arith, above, le))
              (omega (arith, h)))
      | inr less ↦
          let lt : r * 2 + bit < b = ground (arith, less) in
          let q : k * 2 ^ suc i ≡ (k * 2) * 2 ^ i = omega (arith, doubled k i) in
          rw (shifted, less, q)
            (divide_lem i a b (k * 2) (r * 2 + bit) small (omega (arith, above)) lt)
    ]

udivti3-div : (a b : ℕ) → a < 2 ^ 128 → udivti3 a b ≡ a / b
unfolding udivti3
udivti3-div a b small = elim (Bool-cases (b == 0)) [
  | inl null ↦
      let none_left : b ≡ 0 = ground (arith, null) in rw (null, none_left) (sym (div-zero a))
  | inr some_left ↦
      let positive : 0 < b = ground (arith, some_left) in
      let start : a / 2 ^ 128 ≡ 0 * b + 0 = div-eq_of_lt small ∙ omega arith in
      rw some_left (divide_lem 128 a b 0 0 small start positive)
]

-- `__udivti3` and `__umodti3` on 128-bit numbers are the quotient and the remainder; for the divisor 0 they
-- return 0 and the dividend.
pub udivti3_lem : (a b : ℕ) → a < 2 ^ 128 → (udivti3 a b ≡ a / b) × (umodti3 a b ≡ a % b)
unfolding umodti3
udivti3_lem a b small =
    let q : udivti3 a b ≡ a / b = udivti3-div a b small in
    let product : udivti3 a b * b ≡ a / b * b = ap (λ t. t * b) q in
    let whole : a / b * b + a % b ≡ a = div-add-mod' a b in
    (q, omega (arith, product, whole, small))
