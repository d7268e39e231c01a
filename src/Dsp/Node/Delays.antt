-- ===== src/Dsp/Node/Delays.antt =====
-- The fixed delay of src/dsp/dsp.cppm as a node.
use rp4_demo.Base.{
  ℕ, ◌-◌, ◌^◌, ◌<◌, ◌≡◌, refl, ap, ◌∙◌, List, [], ◌∷◌, length, get_or, ltb, if◌then◌else◌,
}
use rp4_demo.Dsp.Floats.{Floats, clamp_index_self}
use rp4_demo.Dsp.State.{State, delay_write_read}
use rp4_demo.Dsp.State.Lines.{run, delay_write_read-run}
use rp4_demo.Dsp.Node.{Node, fixed_delay, tick}

module _ (fl : Floats) where
  open fl use {Float, f_zero}

  -- What a node of one input and one output gives for one sample after another.
  abbrev pub samples : Node fl → State fl → List Float → List Float
  samples n s [] = []
  samples n s (x ∷ xs) =
      get_or (tick fl n s (x ∷ []) (f_zero ∷ [])).2 0 f_zero
      ∷ samples (tick fl n s (x ∷ []) (f_zero ∷ [])).0 (tick fl n s (x ∷ []) (f_zero ∷ [])).1 xs

  samples-fixed_delay :
      (id len : ℕ) (xs : List Float) (s : State fl)
      → samples (fixed_delay id len) s xs ≡ run fl id len len xs s
  unfolding tick
  samples-fixed_delay id len [] s = refl
  samples-fixed_delay id len (x ∷ xs) s =
      ap (◌∷◌ (delay_write_read fl id len x len s).0)
        (samples-fixed_delay id len xs (delay_write_read fl id len x len s).1)

  -- The node of `@(len)`, with a line of its own that was never used, gives each sample `len - 1` ticks
  -- after it came in, and zeros before the first.
  pub samples-fixed_delay_lem :
      (id len n : ℕ) (xs : List Float) (s : State fl)
      → 0 < len
      → len < 2 ^ 31
      → s.delays id ≡ []
      → n < length xs
      → get_or (samples (fixed_delay id len) s xs) n f_zero
        ≡ (if ltb n (len - 1) then f_zero else get_or xs (n - (len - 1)) f_zero)
  samples-fixed_delay_lem id len n xs s h small unused l =
      ap (λ ys. get_or ys n f_zero) (samples-fixed_delay id len xs s)
      ∙ delay_write_read-run fl id len len n xs s h unused l
      ∙ ap (λ k. if ltb n k then f_zero else get_or xs (n - k) f_zero) (clamp_index_self len small)
