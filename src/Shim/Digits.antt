-- ===== src/Shim/Digits.antt =====
-- The digit loops of `vfprintf` in src/shim/libc_shim.c.
use rp4_demo.Base.{
  ℕ, zero, suc, ◌+◌, ◌-◌, ◌*◌, ◌/◌, ◌%◌, ◌^◌, ◌≤◌, ◌<◌, ◌≡◌, subst, ap, ◌∙◌, ltb, ◌==◌,
  if◌then◌else◌, arith, Bool-cases, inl, inr, Option, none, length, some, [], ◌∷◌, Text, true,
  false,
}
use native.Mathlib.Nat.{div-lt_iff_lt-mul, pow-suc, div-add-mod', mod-lt, div-eq_of_lt, pow-zero}

-- `do { *--p = digit(v % base); v /= base; } while (v);` where `n` cells of `buf` lie below `p`; `none` is
-- a write below `buf`.
pub put_digits : ℕ → (ℕ → ℕ) → ℕ → ℕ → Text → Option Text
put_digits base digit zero v p = none
put_digits base digit (suc n) v p =
    let written = digit (v % base) ∷ p in
    let more = put_digits base digit n (v / base) written in
    if v / base == 0 then some written else more

-- `buf` has 32 cells, and the last one is the terminator.
abbrev pub cells : ℕ
cells = 31

-- `'0' + (char)(v % 10)`
abbrev pub decimal_digit : ℕ → ℕ
decimal_digit d = b'0' + d

-- `hex[d]`, where the table's letters start with `a`.
abbrev pub hex_digit : ℕ → ℕ → ℕ
hex_digit a d = if ltb d 10 then b'0' + d else a + (d - 10)

-- The number that digits stand for, behind `v`.
abbrev pub number_of : ℕ → (ℕ → ℕ) → ℕ → Text → ℕ
number_of base value v [] = v
number_of base value v (c ∷ cs) = number_of base value (v * base + value c) cs

abbrev pub decimal_value : ℕ → ℕ
decimal_value c = c - b'0'

abbrev pub hex_value : ℕ → ℕ → ℕ
hex_value a c = if ltb c 58 then c - b'0' else c + 10 - a

-- The digits that a loop puts in front of `p`: at least one, at most `n`, and they read back as `v`.
abbrev pub Digits : ℕ → (ℕ → ℕ) → ℕ → ℕ → Text → Option Text → Type 0
Digits base value n v p none = ⊥
Digits base value n v p (some q) =
    (number_of base value 0 q ≡ number_of base value v p)
    × (length p < length q)
    × (length q ≤ length p + n)

module _ (base : ℕ) (digit value : ℕ → ℕ) (big : 1 < base)
    (back : (d : ℕ) → d < base → value (digit d) ≡ d) where
  one_digit :
      (m v : ℕ) (p : Text)
      → v / base ≡ 0
      → Digits base value (suc m) v p (some (digit (v % base) ∷ p))
  one_digit m v p last =
      let whole : v / base * base + v % base ≡ v = div-add-mod' v base in
      let none_above : v / base * base ≡ 0 * base = ap (λ q. q * base) last in
      let read : 0 * base + value (digit (v % base)) ≡ v =
        omega (arith, back (v % base) (mod-lt v (omega arith)), whole, none_above) in
      (ap (λ w. number_of base value w p) read, omega arith, omega arith)

  one_more :
      (m v : ℕ) (p : Text) (r : Option Text)
      → Digits base value m (v / base) (digit (v % base) ∷ p) r
      → Digits base value (suc m) v p r
  one_more m v p none h = h
  one_more m v p (some q) (read, longer, short) =
      let whole : v / base * base + value (digit (v % base)) ≡ v =
        omega (arith, back (v % base) (mod-lt v (omega arith)), div-add-mod' v base) in
      (read ∙ ap (λ w. number_of base value w p) whole, omega (arith, longer), omega (arith, short))

  -- In `n` cells, where `m` digits are enough for `v`: no write goes below the buffer, and there are at
  -- most `m` digits.
  pub put_digits-Digits :
      (m n v : ℕ) (p : Text)
      → m ≤ n
      → v < base ^ m * base
      → Digits base value (suc m) v p (put_digits base digit (suc n) v p)
  unfolding put_digits
  put_digits-Digits zero n v p room small =
      let last : v / base ≡ 0 =
        div-eq_of_lt (omega (arith, small, ap (λ q. q * base) (pow-zero base))) in
      let test : (v / base == 0) ≡ true = ground (arith, last) in rw test (one_digit 0 v p last)
  put_digits-Digits (suc m) zero v p room small = absurd (omega (arith, room))
  put_digits-Digits (suc m) (suc n) v p room small =
      let less : v / base < base ^ m * base =
        (div-lt_iff_lt-mul {k = base} {x = v} {y = base ^ m * base} (omega (arith, big))).1
          (subst (λ q. v < q * base) (pow-suc base m) small) in
      elim (Bool-cases (v / base == 0)) [
        | inl last ↦ rw last (one_digit (suc m) v p (ground (arith, last)))
        | inr more ↦ rw more (
            one_more (suc m) v p (put_digits base digit (suc n) (v / base) (digit (v % base) ∷ p))
              (put_digits-Digits m n (v / base) (digit (v % base) ∷ p) (omega (arith, room)) less))
      ]

-- What `vfprintf` prints of a number.
abbrev pub decimal : ℕ → Option Text
decimal v = put_digits 10 decimal_digit cells v []

abbrev pub hexadecimal : ℕ → ℕ → Option Text
hexadecimal a v = put_digits 16 (hex_digit a) cells v []

pub decimal-Digits : (v : ℕ) → v < 2 ^ 64 → Digits 10 decimal_value 20 v [] (decimal v)
decimal-Digits v small =
    put_digits-Digits 10 decimal_digit decimal_value (omega arith) (λ d h. omega arith) 19 30 v []
      (omega arith) (omega arith)

hex_value-hex_digit : (a d : ℕ) → 58 ≤ a → d < 16 → hex_value a (hex_digit a d) ≡ d
hex_value-hex_digit a d letter h = elim (Bool-cases (ltb d 10)) [
  | inl few ↦
      let low : ltb (b'0' + d) 58 ≡ true = ground (arith, few) in rw (few, low) (omega arith)
  | inr more ↦
      let high : ltb (a + (d - 10)) 58 ≡ false = ground (arith, more, letter) in
      rw (more, high) (ground (arith, more))
]

pub hexadecimal-Digits :
    (a v : ℕ) → 58 ≤ a → v < 2 ^ 64 → Digits 16 (hex_value a) 16 v [] (hexadecimal a v)
hexadecimal-Digits a v letter small =
    put_digits-Digits 16 (hex_digit a) (hex_value a) (omega arith)
      (λ d h. hex_value-hex_digit a d letter h) 15 30 v [] (omega arith) (omega arith)
