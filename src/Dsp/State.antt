-- ===== src/Dsp/State.antt =====
-- `State` of src/dsp/dsp.cppm: delay lines, feedback and parameters, by identifier and by label.
pub mod Lines
use rp4_demo.Base.{
  ℕ, ◌+◌, ◌-◌, ◌%◌, Bool, Option, none, some, List, [], ◌∷◌, ◌==◌, if◌then◌else◌, Text, text_eq,
  set, get_or, replicate,
}
use rp4_demo.Dsp.Floats.{Floats, clamp_index}

module _ (fl : Floats) where
  open fl use {Float, f_zero}

  -- A key that a map does not hold has the empty line and the position 0, as `operator[]` makes them.
  pub record State : Type 0 where
    pub delays : ℕ → List Float
    pub delay_pos : ℕ → ℕ
    pub feedback : ℕ → Option Float
    pub params : Text → Option Float
    pub sr : Float

  abbrev pub put {ℓ} : {A : Type ℓ} → (ℕ → A) → ℕ → A → ℕ → A
  put m id v j = if j == id then v else m j

  -- The line and the position that a call works with.
  pub opened : ℕ → ℕ → State → List Float × ℕ
  opened id len s = elim (s.delays id) [
    | [] ↦ (replicate len f_zero, 0)
    | x ∷ xs ↦ (x ∷ xs, s.delay_pos id)
  ]

  -- `len` is at least 1; `d` is the bits of an `int`.
  pub delay_write_read : ℕ → ℕ → Float → ℕ → State → Float × State
  unfolding opened
  delay_write_read id len x d s =
      let (buf, wp) = opened id len s in
      let written = set buf wp x in
      (
        get_or written ((wp + len - clamp_index d (len - 1)) % len) f_zero,
        record s {
          delays = put s.delays id written;
          delay_pos = put s.delay_pos id ((wp + 1) % len);
        },
      )

  pub fb_get : ℕ → State → Float
  fb_get id s = elim (s.feedback id) [ none ↦ f_zero | some v ↦ v ]

  pub fb_set : ℕ → Float → State → State
  fb_set id v s = record s { feedback = put s.feedback id (some v) }

  pub param_get : Text → Float → State → Float
  param_get label init s = elim (s.params label) [ none ↦ init | some v ↦ v ]

  pub param_set : Text → Float → State → State
  param_set label v s = record s { params = λ l. if text_eq l label then some v else s.params l }
