-- ===== src/Dsp/Physical/Tubes.antt =====
-- The flute and the clarinet of src/dsp/dsp.cppm.
use rp4_demo.Base.{ℕ, List, codes, get_or, max}
use rp4_demo.Dsp.Floats.{Floats, f_clamp}
use rp4_demo.Dsp.Physical.Sound.{
  lit, at_least, pm_noise, pm_l2s, input_or, half, Ring, mk_ring, last, write_ring,
}

module _ (fl : Floats) where
  open fl use {
    Float, f_zero, f_one, f_lit, f_less, f_add, f_sub, f_mul, f_div, f_neg, f_math, int_of,
    float_of,
  }

  pub record Flute : Type 0 where
    pub bore : Ring fl
    pub jet : Ring fl
    pub lp : Float
    pub seed : ℕ

  unfoldable pub mk_flute : Float → Float → Float → Flute
  unfolding pm_l2s at_least
  mk_flute tube_len sr mouth_pos =
      let bore_len : ℕ = max 2 (pm_l2s fl tube_len sr) in
      let mouth = f_clamp fl mouth_pos (lit fl (codes "0.05")) (half fl) in
      record {
        bore = mk_ring fl bore_len;
        jet = mk_ring fl (at_least fl 1 (int_of (f_mul (float_of bore_len) mouth)));
        lp = f_zero;
        seed = 7919;
      }

  unfoldable pub tick_flute : Flute → List Float → Flute × Float
  unfolding pm_noise
  tick_flute t xs =
      let (noise, seed) = pm_noise fl t.seed in
      let jet_in =
        f_add (input_or fl xs 0 f_zero) (f_mul noise (input_or fl xs 1 (lit fl (codes "0.05")))) in
      let jet_out = get_or t.jet.cells t.jet.pos f_zero in
      let jet_nl =
        f_sub jet_out (f_div (f_mul (f_mul jet_out jet_out) jet_out) (lit fl (codes "3"))) in
      let bore_reflect = last fl t.bore in
      let reflect = f_mul (f_neg (lit fl (codes "0.7"))) bore_reflect in
      let low = f_add (f_mul (lit fl (codes "0.3")) reflect) (f_mul (lit fl (codes "0.7")) t.lp) in
      (
        record {
          bore = write_ring fl (f_add jet_nl (f_mul low (lit fl (codes "0.35")))) t.bore;
          jet = write_ring fl jet_in t.jet;
          lp = low;
          seed = seed;
        },
        f_mul bore_reflect (lit fl (codes "0.3")),
      )

  pub record Clarinet : Type 0 where
    pub bore : Ring fl
    pub lp : Float

  unfoldable pub mk_clarinet : Float → Float → Clarinet
  unfolding pm_l2s
  mk_clarinet tube_len sr = record {
    bore = mk_ring fl (max 2 (pm_l2s fl tube_len sr));
    lp = f_zero;
  }

  unfoldable pub tick_clarinet : Clarinet → List Float → Clarinet × Float
  tick_clarinet t xs =
      let bore_out = last fl t.bore in
      let delta_p = f_sub (input_or fl xs 0 f_zero) bore_out in
      let reed =
        f_clamp fl
          (f_add (f_mul (f_neg (input_or fl xs 1 (half fl))) delta_p) (lit fl (codes "0.7"))) f_zero
          f_one in
      let flow = f_mul reed delta_p in
      let low = f_add (f_mul (lit fl (codes "0.4")) bore_out) (f_mul (lit fl (codes "0.6")) t.lp) in
      (
        record {
          bore = write_ring fl (f_add flow (f_mul low (lit fl (codes "0.35")))) t.bore;
          lp = low;
        },
        f_mul (f_mul (f_sub f_one reed) bore_out) (half fl),
      )
