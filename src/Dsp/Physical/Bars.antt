-- ===== src/Dsp/Physical/Bars.antt =====
-- The struck bar of src/dsp/dsp.cppm.
use rp4_demo.Base.{ℕ, zero, suc, Bool, false, List, [], ◌∷◌, if◌then◌else◌, codes}
use rp4_demo.Dsp.Floats.{Floats, sin}
use rp4_demo.Dsp.Physical.Sound.{lit, input_or, rising, arm}

module _ (fl : Floats) where
  open fl use {
    Float, f_zero, f_one, f_lit, f_less, f_add, f_sub, f_mul, f_div, f_neg, f_math, int_of,
    float_of,
  }

  -- One mode of a bar: the arrays' cells at one index.
  pub record Mode : Type 0 where
    pub freq : Float
    pub decay : Float
    pub init : Float
    pub amp : Float
    pub phase : Float

  pub record ModalBar : Type 0 where
    pub modes : List Mode
    pub sr : Float
    pub armed : Bool

  -- The modes from the arrays; at most `n`.
  unfoldable pub mk_modes : ℕ → Float → List (Float × Float × Float) → List Mode
  mk_modes zero f ms = []
  mk_modes (suc n) f [] = []
  mk_modes (suc n) f ((ratio, decay, gain) ∷ ms) =
      record { freq = f_mul f ratio; decay = decay; init = gain; amp = f_zero; phase = f_zero }
      ∷ mk_modes n f ms

  abbrev pub max_modes : ℕ
  max_modes = 8

  abbrev pub mk_modal : Float → Float → List (Float × Float × Float) → ModalBar
  mk_modal f sr ms = record { modes = mk_modes max_modes f ms; sr = sr; armed = false }

  abbrev two_pi : Float
  two_pi = lit fl (codes "6.2831853")

  unfoldable pub strike : Float → List Mode → List Mode
  strike gain [] = []
  strike gain (m ∷ ms) = record m { amp = f_mul gain m.init; phase = f_zero } ∷ strike gain ms

  -- The sum of the modes, and the modes after the tick.
  unfoldable pub ring_modes : Float → Float → List Mode → List Mode × Float
  ring_modes sr sum [] = ([], sum)
  ring_modes sr sum (m ∷ ms) =
      let turned = f_add m.phase (f_div (f_mul two_pi m.freq) sr) in
      let phase = if f_less two_pi turned then f_sub turned two_pi else turned in
      let rest = ring_modes sr (f_add sum (f_mul m.amp (f_math sin m.phase))) ms in
      (record m { amp = f_mul m.amp m.decay; phase = phase } ∷ rest.0, rest.1)

  unfoldable pub tick_modal : ModalBar → List Float → ModalBar × Float
  unfolding strike ring_modes
  tick_modal b xs =
      let trig = input_or fl xs 1 f_zero in
      let struck =
        if rising fl b.armed trig
        then strike (input_or fl xs 0 (lit fl (codes "0.8"))) b.modes
        else b.modes in
      let rung = ring_modes b.sr f_zero struck in
      (record b { modes = rung.0; armed = arm fl b.armed trig }, rung.1)
