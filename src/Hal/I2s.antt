-- ===== src/Hal/I2s.antt =====
-- The I2S clock and FIFO of src/hal/hal.cppm.
use rp4_demo.Base.{
  ℕ, ◌+◌, ◌*◌, ◌/◌, ◌%◌, ◌^◌, ◌≤◌, ◌<◌, ◌≡◌, ap, arith, Bool, true, false, Option, none, some, ltb,
  ◌==◌, if◌then◌else◌, Bool-cases, inl, inr,
}
use Prim.Native.Nat.{bit_and, bit_or}
use native.Mathlib.Nat.{div-add-mod', mod-lt, lt_of_mul-lt-mul_right}
use rp4_demo.Hal.{Device, u32_mod}
use rp4_demo.Hal.Names.{pcm_base, peripheral_base}
use rp4_demo.Hal.Pins.{poll}

abbrev pub cm_pcmctl : ℕ
cm_pcmctl = peripheral_base + 0x101098

abbrev pub cm_pcmdiv : ℕ
cm_pcmdiv = peripheral_base + 0x10109C

abbrev pub cm_passwd : ℕ
cm_passwd = 0x5A000000

-- `plld_freq / (chanlen * chans)`
abbrev pub base : ℕ
base = 750000000 / (32 * 2)

-- The two parts of the divisor, `divi` and `divf`; `rate` is not 0.
pub divisor : ℕ → ℕ × ℕ
divisor rate =
    let divf = (base % rate * 4096 + rate / 2) % u32_mod / rate in
    if ltb 4095 divf then (base / rate + 1, 0) else (base / rate, divf)

module _ (d : Device) where
  open d use {State, load, store}

  pub set_sample_rate : ℕ → ℕ → State → Option State
  unfolding divisor
  set_sample_rate fuel rate s =
      elim (poll d fuel cm_pcmctl (2 ^ 7) false (store cm_pcmctl (bit_or cm_passwd (2 ^ 5)) s)) [
        | none ↦ none
        | some s' ↦
            let (divi, divf) = divisor rate in
            let divided =
              store cm_pcmdiv (bit_or (bit_or cm_passwd (divi * 2 ^ 12 % u32_mod)) divf) s' in
            let mash : ℕ = if ltb 0 divf then 2 ^ 9 else 0 in
            some (store cm_pcmctl (bit_or (bit_or (bit_or cm_passwd 6) mash) (2 ^ 4)) divided)
      ]

  pub init_stereo : ℕ → ℕ → State → Option State
  unfolding set_sample_rate
  init_stereo fuel rate s = elim (set_sample_rate fuel rate s) [
    | none ↦ none
    | some s' ↦ some (
        store pcm_base (2 ^ 0 + 2 ^ 2) (
          store (pcm_base + 0x10) (2 ^ 31 + 8 * 2 ^ 16 + 2 ^ 15 + 16 * 2 ^ 4 + 8)
            (store (pcm_base + 0x08) (31 * 2 ^ 10 + 15) (store pcm_base (2 ^ 3 + 2 ^ 4) s'))))
  ]

  -- The samples are 16-bit patterns. `false` where the FIFO is full.
  pub write_sample : ℕ → ℕ → State → Bool × State
  write_sample left right s =
      let (v, s') = load pcm_base s in
      if bit_and v (2 ^ 19) == 0
      then (false, s')
      else (true, store (pcm_base + 0x04) (left % 2 ^ 16 + right % 2 ^ 16 * 2 ^ 16) s')

expand : (q f rate : ℕ) → (q * 4096 + f) * rate ≡ q * rate * 4096 + f * rate
expand q f rate = omega arith

-- A quotient of less than 4097 times the divisor.
bound : (f rate r : ℕ) → 0 < rate → f * rate + r < 4097 * rate → f ≤ 4096
bound f rate r h l =
    let fewer : f < 4097 = lt_of_mul-lt-mul_right rate (omega (arith, l)) in omega (arith, fewer)

-- For a rate of 1 to 2 ^ 19 - 1 the divisor `divi + divf / 4096` is the clock over the rate, rounded to
-- the nearest 4096th, halves up; its fraction is below 4096 also where it was rounded up to a whole.
pub divisor_lem :
    (rate : ℕ)
    → 0 < rate
    → rate < 2 ^ 19
    → ((divisor rate).1 < 4096)
      × (((divisor rate).0 * 4096 + (divisor rate).1) * rate ≤ base * 4096 + rate / 2)
      × (base * 4096 + rate / 2 < ((divisor rate).0 * 4096 + (divisor rate).1) * rate + rate)
unfolding divisor
divisor_lem rate h small =
    let m : ℕ = base % rate in
    let whole : base / rate * rate + m ≡ base = div-add-mod' base rate in
    let below : m < rate = mod-lt base h in
    let fits : (m * 4096 + rate / 2) % 2 ^ 32 ≡ m * 4096 + rate / 2 = omega (arith, below, small) in
    let f : ℕ = (m * 4096 + rate / 2) / rate in
    let r : ℕ = (m * 4096 + rate / 2) % rate in
    let split : f * rate + r ≡ m * 4096 + rate / 2 = div-add-mod' (m * 4096 + rate / 2) rate in
    let rest : r < rate = mod-lt (m * 4096 + rate / 2) h in
    let sum : (base / rate * 4096 + f) * rate + r ≡ base * 4096 + rate / 2 =
      omega (arith, expand (base / rate) f rate, whole, split) in
    elim (Bool-cases (ltb 4095 f)) [
      | inl carried ↦
          let above : 4095 < f = ground (arith, carried) in
          let exact : f ≡ 4096 =
            omega (arith, bound f rate r h (omega (arith, split, below)), above) in
          let same : ((base / rate + 1) * 4096 + 0) * rate ≡ (base / rate * 4096 + f) * rate =
            ap (λ t. t * rate) (omega (arith, exact)) in
          rw (fits, carried) (omega arith, omega (arith, sum, same), omega (arith, sum, rest, same))
      | inr plain ↦
          rw (fits, plain) (ground (arith, plain), omega (arith, sum), omega (arith, sum, rest))
    ]
