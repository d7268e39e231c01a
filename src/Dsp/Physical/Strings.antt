-- ===== src/Dsp/Physical/Strings.antt =====
-- The plucked and the bowed string of src/dsp/dsp.cppm.
use rp4_demo.Base.{
  ℕ, zero, suc, ◌+◌, ◌-◌, ◌%◌, Bool, false, List, [], ◌∷◌, if◌then◌else◌, codes, set, get_or,
  replicate, max,
}
use rp4_demo.Dsp.Floats.{Floats, exp, f_max, f_clamp, int_mod}
use rp4_demo.Dsp.Physical.Sound.{
  lit, at_least, pm_noise, pm_l2s, input_or, half, rising, arm, Ring, mk_ring, last, write_ring,
}

module _ (fl : Floats) where
  open fl use {
    Float, f_zero, f_one, f_lit, f_less, f_add, f_sub, f_mul, f_div, f_neg, f_math, int_of,
    float_of,
  }

  pub record Plucked : Type 0 where
    pub dlen : ℕ
    pub damp_coeff : Float
    pub atten : Float
    pub dl : List Float
    pub wp : ℕ
    pub lp_y1 : Float
    -- `ap_x1` and `ap_y1` of the first stage and of the second
    pub ap0 : Float × Float
    pub ap1 : Float × Float
    pub dc_x1 : Float
    pub dc_y1 : Float
    pub armed : Bool
    pub seed : ℕ

  unfoldable pub mk_plucked : Float → Float → Float → Plucked
  unfolding pm_l2s
  mk_plucked string_len sr damping = record {
    dlen = pm_l2s fl string_len sr;
    damp_coeff = f_clamp fl damping f_zero (lit fl (codes "0.99"));
    atten = lit fl (codes "0.998");
    dl = replicate (pm_l2s fl string_len sr) f_zero;
    wp = 0;
    lp_y1 = f_zero;
    ap0 = (f_zero, f_zero);
    ap1 = (f_zero, f_zero);
    dc_x1 = f_zero;
    dc_y1 = f_zero;
    armed = false;
    seed = (42 + pm_l2s fl string_len sr) % int_mod;
  }

  -- The noise that fills the line, and the seed behind it.
  unfoldable pub excite : ℕ → Float → ℕ → List Float × ℕ
  unfolding pm_noise
  excite zero gain seed = ([], seed)
  excite (suc n) gain seed =
      let rest = excite n gain (pm_noise fl seed).1 in
      (f_mul (pm_noise fl seed).0 gain ∷ rest.0, rest.1)

  -- One stage of the allpass: the output, from the stage's last input and output.
  abbrev pub allpass : Float → Float × Float → Float
  allpass x s = f_add (f_add (f_mul (f_neg (half fl)) x) s.0) (f_mul (half fl) s.1)

  unfoldable pub tick_plucked : Plucked → List Float → Plucked × Float
  unfolding excite
  tick_plucked p xs =
      let trig = input_or fl xs 1 f_zero in
      let filled = excite p.dlen (input_or fl xs 0 (lit fl (codes "0.8"))) p.seed in
      let dl = if rising fl p.armed trig then filled.0 else p.dl in
      let seed = if rising fl p.armed trig then filled.1 else p.seed in
      let x = get_or dl p.wp f_zero in
      let y0 = allpass x p.ap0 in
      let y1 = allpass y0 p.ap1 in
      let low = f_add (f_mul (f_sub f_one p.damp_coeff) y1) (f_mul p.damp_coeff p.lp_y1) in
      let loss = f_mul low p.atten in
      let dc = f_add (f_sub loss p.dc_x1) (f_mul (lit fl (codes "0.995")) p.dc_y1) in
      (
        record p {
          dl = set dl p.wp dc;
          wp = (p.wp + 1) % p.dlen;
          lp_y1 = low;
          ap0 = (x, y0);
          ap1 = (y0, y1);
          dc_x1 = loss;
          dc_y1 = dc;
          armed = arm fl p.armed trig;
          seed = seed;
        },
        dc,
      )

  pub record Bowed : Type 0 where
    pub nut : Ring fl
    pub bridge : Ring fl
    pub body_lp : Float

  unfoldable pub mk_bowed : Float → Float → Float → Bowed
  unfolding pm_l2s at_least
  mk_bowed string_len sr bow_pos =
      let total : ℕ = max 4 (pm_l2s fl string_len sr) in
      let bp = f_clamp fl bow_pos (lit fl (codes "0.05")) (lit fl (codes "0.95")) in
      let nut_len = at_least fl 2 (int_of (f_mul (float_of total) bp)) in
      record {
        nut = mk_ring fl nut_len;
        bridge = mk_ring fl (max 2 (total - nut_len));
        body_lp = f_zero;
      }

  pub bow_table : Float → Float → Float
  bow_table v_diff pressure =
      let slope = f_mul (lit fl (codes "5")) (f_max fl (lit fl (codes "0.01")) pressure) in
      let x = f_add v_diff (lit fl (codes "0.2")) in
      f_mul (f_mul slope x) (f_math exp (f_add (f_mul (f_mul (f_neg slope) x) x) (half fl)))

  unfoldable pub tick_bowed : Bowed → List Float → Bowed × Float
  unfolding bow_table
  tick_bowed b xs =
      let from_nut = f_neg (last fl b.nut) in
      let from_bridge = f_mul (last fl b.bridge) (f_neg (lit fl (codes "0.95"))) in
      let force =
        bow_table (f_sub (input_or fl xs 0 f_zero) (f_add from_nut from_bridge))
          (input_or fl xs 1 f_zero) in
      let raw = f_add from_nut force in
      let body =
        f_add (f_mul (lit fl (codes "0.15")) raw) (f_mul (lit fl (codes "0.85")) b.body_lp) in
      (
        record {
          nut = write_ring fl (f_add from_bridge force) b.nut;
          bridge = write_ring fl raw b.bridge;
          body_lp = body;
        },
        body,
      )
