-- ===== src/Hal/Dac.antt =====
-- The DAC of src/hal/hal.cppm: its register names, the text of a write, and its start-up over I2C.
use rp4_demo.Base.{
  ℕ, ◌+◌, ◌-◌, ◌/◌, ◌%◌, ◌<◌, ◌≤◌, arith, Bool, true, false, Option, none, some, List, [], ◌∷◌,
  ◌++◌, ltb, ◌==◌, if◌then◌else◌, Text, codes, take, length, min, length-append, length-take,
  Bool-cases, inl, inr,
}
use rp4_demo.Hal.{Device}
use rp4_demo.Hal.Pins

-- The register table of the PCM5122, less the pages of its data sheet.
abbrev pub reg_table : List (ℕ × Text)
reg_table =
    (0x00, codes "page")
    ∷ (0x01, codes "reset")
    ∷ (0x02, codes "power")
    ∷ (0x03, codes "mute")
    ∷ (0x04, codes "pll_en")
    ∷ (0x06, codes "spi_miso")
    ∷ (0x07, codes "dsp")
    ∷ (0x08, codes "gpio_en")
    ∷ (0x09, codes "bck_lrck")
    ∷ (0x0D, codes "pll_ref")
    ∷ (0x0E, codes "dac_clk_src")
    ∷ (0x13, codes "sync")
    ∷ (0x14, codes "pll_p")
    ∷ (0x15, codes "pll_j")
    ∷ (0x16, codes "pll_d_hi")
    ∷ (0x17, codes "pll_d_lo")
    ∷ (0x18, codes "pll_r")
    ∷ (0x1B, codes "dsp_div")
    ∷ (0x1C, codes "dac_div")
    ∷ (0x1D, codes "ncp_div")
    ∷ (0x1E, codes "osr_div")
    ∷ (0x20, codes "bck_div")
    ∷ (0x21, codes "lrck_div")
    ∷ (0x22, codes "fs_speed")
    ∷ (0x25, codes "err_ignore")
    ∷ (0x28, codes "i2s_cfg")
    ∷ (0x29, codes "i2s_shift")
    ∷ (0x2A, codes "dac_path")
    ∷ (0x2B, codes "dsp_prog")
    ∷ (0x2C, codes "clk_miss")
    ∷ (0x3B, codes "auto_mute_time")
    ∷ (0x3C, codes "vol_ctrl")
    ∷ (0x3D, codes "vol_l")
    ∷ (0x3E, codes "vol_r")
    ∷ (0x3F, codes "vol_ramp")
    ∷ (0x40, codes "vol_emerg")
    ∷ (0x41, codes "auto_mute")
    ∷ (0x50, codes "gpio1_sel")
    ∷ (0x51, codes "gpio2_sel")
    ∷ (0x52, codes "gpio3_sel")
    ∷ (0x53, codes "gpio4_sel")
    ∷ (0x54, codes "gpio5_sel")
    ∷ (0x55, codes "gpio6_sel")
    ∷ (0x56, codes "gpio_out")
    ∷ (0x57, codes "gpio_inv")
    ∷ (0x5A, codes "dsp_ovfl")
    ∷ (0x5B, codes "det_fs")
    ∷ (0x6C, codes "ana_mute_mon")
    ∷ (0x77, codes "gpio_in")
    ∷ (0x78, codes "auto_mute_flags")
    ∷ []

pub name_of : ℕ → List (ℕ × Text) → Text
name_of a [] = codes "?"
name_of a ((r, n) ∷ rs) = if r == a then n else name_of a rs

-- The hexadecimal digit of a nibble.
pub hex : ℕ → ℕ
hex h = if ltb h 10 then b'0' + h else b'a' + h - 10

-- `if (i < limit) buf[i++] = c;`
abbrev pub put_char : ℕ → ℕ → Text → Text
put_char limit c buf = if ltb (length buf) limit then buf ++ c ∷ [] else buf

-- What stands before the NUL that `fmt_write` writes.
pub fmt_write : ℕ → ℕ → ℕ → Text
unfolding name_of hex
fmt_write cap reg val =
    let n = name_of reg reg_table in
    put_char (cap - 1) (hex (val % 16)) (
      put_char (cap - 2) (hex (val / 16 % 16)) (
        put_char (cap - 3) b'x'
          (put_char (cap - 4) b'0' (put_char (cap - 5) b'=' (take (min (length n) (cap - 6)) n)))))

length-put_char :
    (limit c : ℕ) (buf : Text) → length buf ≤ limit → length (put_char limit c buf) ≤ limit
length-put_char limit c buf h = elim (Bool-cases (ltb (length buf) limit)) [
  | inl room ↦ rw room (ground (arith, length-append buf (c ∷ []), room))
  | inr full ↦ rw full h
]

-- The text of a register write and the NUL behind it fit in a buffer that is not empty.
pub length-fmt_write : (cap reg val : ℕ) → 0 < cap → length (fmt_write cap reg val) < cap
unfolding fmt_write
length-fmt_write cap reg val h =
    let n = name_of reg reg_table in
    let p0 : length (take (min (length n) (cap - 6)) n) ≤ cap - 5 =
      omega (arith, length-take (min (length n) (cap - 6)) n) in
    let t0 = take (min (length n) (cap - 6)) n in
    let t1 = put_char (cap - 5) b'=' t0 in
    let p1 : length t1 ≤ cap - 4 = omega (arith, length-put_char (cap - 5) b'=' t0 p0) in
    let t2 = put_char (cap - 4) b'0' t1 in
    let p2 : length t2 ≤ cap - 3 = omega (arith, length-put_char (cap - 4) b'0' t1 p1) in
    let t3 = put_char (cap - 3) b'x' t2 in
    let p3 : length t3 ≤ cap - 2 = omega (arith, length-put_char (cap - 3) b'x' t2 p2) in
    let t4 = put_char (cap - 2) (hex (val / 16 % 16)) t3 in
    let p4 : length t4 ≤ cap - 1 =
      omega (arith, length-put_char (cap - 2) (hex (val / 16 % 16)) t3 p3) in
    omega (arith, length-put_char (cap - 1) (hex (val % 16)) t4 p4)

-- The writes of `init`, in order.
abbrev pub init_writes : List (ℕ × ℕ)
init_writes =
    (0x00, 0x00)
    ∷ (0x01, 0x11)
    ∷ (0x01, 0x00)
    ∷ (0x02, 0x00)
    ∷ (0x0D, 0x10)
    ∷ (0x04, 0x01)
    ∷ (0x14, 0x01)
    ∷ (0x15, 0x10)
    ∷ (0x16, 0x00)
    ∷ (0x17, 0x00)
    ∷ (0x18, 0x01)
    ∷ (0x1B, 0x02)
    ∷ (0x1C, 0x04)
    ∷ (0x1D, 0x04)
    ∷ (0x1E, 0x01)
    ∷ (0x28, 0x00)
    ∷ (0x3D, 0x30)
    ∷ (0x3E, 0x30)
    ∷ (0x03, 0x00)
    ∷ []

module _ (d : Device) (fuel : ℕ) where
  open d use {State}

  -- `w` of `init`: the write, and its line on the UART. `none` where a device never answers.
  pub logged_write : ℕ → ℕ → State → Option (Bool × State)
  logged_write reg val s = elim (Pins.write_reg d fuel 0x4D reg val s) [
    | none ↦ none
    | some (ok, s1) ↦
        elim (Pins.puts d fuel
          (codes "dac: "
            ++ (fmt_write 32 reg val ++ (if ok then codes " ok\n" else codes " FAIL\n")))
          s1) [ none ↦ none | some s2 ↦ some (ok, s2) ]
  ]

  -- The writes up to the first one that fails.
  pub run_writes : List (ℕ × ℕ) → State → Option (Bool × State)
  unfolding logged_write
  run_writes [] s = some (true, s)
  run_writes ((reg, val) ∷ ws) s = elim (logged_write reg val s) [
    | none ↦ none
    | some (ok, s') ↦ if ok then run_writes ws s' else some (false, s')
  ]

  pub init : State → Option (Bool × State)
  unfolding run_writes
  init s = run_writes init_writes s

  -- `a && b` of two writes.
  pub set_volume : ℕ → State → Option (Bool × State)
  set_volume vol s = elim (Pins.write_reg d fuel 0x4D 0x3D vol s) [
    | none ↦ none
    | some (ok, s') ↦ if ok then Pins.write_reg d fuel 0x4D 0x3E vol s' else some (false, s')
  ]

  pub mute : Bool → State → Option (Bool × State)
  mute on s = Pins.write_reg d fuel 0x4D 0x03 (if on then 0x11 else 0x00) s
