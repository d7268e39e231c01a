-- ===== src/Dsp/Physical/Sound.antt =====
-- What the physical models of src/dsp/dsp.cppm share: noise, units, triggers and circular buffers.
use rp4_demo.Base.{
  ℕ, ◌+◌, ◌-◌, ◌*◌, ◌/◌, ◌%◌, ◌^◌, Bool, true, false, not, ◌&&◌, List, ltb, if◌then◌else◌, Text,
  codes, set, get_or, replicate, max,
}
use Prim.Native.Nat.{bit_xor}
use rp4_demo.Dsp.Floats.{Floats, exp, f_max, int_mod}

module _ (fl : Floats) where
  open fl use {
    Float, f_zero, f_one, f_lit, f_less, f_add, f_sub, f_mul, f_div, f_neg, f_math, int_of,
    float_of,
  }

  -- A literal.
  abbrev pub lit : Text → Float
  lit t = f_lit t

  -- `std::max(lo, i)` for an `int` given by its bits, where `lo` is not negative.
  unfoldable pub at_least : ℕ → ℕ → ℕ
  at_least lo i = if ltb i (2 ^ 31) then max lo i else lo

  -- `pm_noise`: the sample and the next seed.
  unfoldable pub pm_noise : ℕ → Float × ℕ
  pm_noise seed =
      let a = bit_xor seed (seed * 2 ^ 13 % int_mod) in
      let b = bit_xor a (a / 2 ^ 17) in
      let c = bit_xor b (b * 2 ^ 5 % int_mod) in (f_div (float_of c) (lit (codes "2147483647")), c)

  unfoldable pub pm_l2s : Float → Float → ℕ
  pm_l2s l sr = at_least 1 (int_of (f_div (f_mul l sr) (lit (codes "340"))))

  pub pm_f2l : Float → Float
  pm_f2l f = f_div (lit (codes "340")) (f_max fl f_one f)

  pub pm_t60_decay : Float → Float → Float
  pm_t60_decay seconds sr = f_math exp (f_div (f_neg (lit (codes "6.908"))) (f_mul seconds sr))

  -- `in.size() > i ? in[i] : d`
  abbrev pub input_or : List Float → ℕ → Float → Float
  input_or xs i d = get_or xs i d

  abbrev pub half : Float
  half = lit (codes "0.5")

  -- `armed` after a tick, and whether the tick is a rising edge.
  abbrev pub rising : Bool → Float → Bool
  rising armed trig = f_less half trig && not armed

  abbrev pub arm : Bool → Float → Bool
  arm armed trig = if f_less trig half then false else if rising armed trig then true else armed

  -- A circular buffer, `*_dl`, with the length that is stored beside it, `*_len`, and the position that is
  -- written next, `*_wp`.
  pub record Ring : Type 0 where
    pub len : ℕ
    pub cells : List Float
    pub pos : ℕ

  abbrev pub mk_ring : ℕ → Ring
  mk_ring n = record { len = n; cells = replicate n f_zero; pos = 0 }

  -- `dl[(wp - 1 + len) % len]`
  abbrev pub last : Ring → Float
  last r = get_or r.cells ((r.pos + r.len - 1) % r.len) f_zero

  -- `dl[wp] = v; wp = (wp + 1) % len;`
  abbrev pub write_ring : Float → Ring → Ring
  write_ring v r = record r { cells = set r.cells r.pos v; pos = (r.pos + 1) % r.len }
