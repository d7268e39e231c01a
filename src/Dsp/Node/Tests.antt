-- ===== src/Dsp/Node/Tests.antt =====
-- The theorem on the fixed delay (src/dsp/dsp.cppm) at concrete inputs, with natural numbers for floats.
use rp4_demo.Base.{◌-◌, ◌≡◌, refl, [], ◌∷◌, get_or, ltb, if◌then◌else◌, arith}
use rp4_demo.Dsp.Naturals.{naturals, silent}
use rp4_demo.Dsp.Node.{fixed_delay}
use rp4_demo.Dsp.Node.Delays.{samples, samples-fixed_delay_lem}

samples-fixed_delay_lem_example :
    get_or (samples naturals (fixed_delay 0 1) silent (7 ∷ 8 ∷ [])) 1 0
    ≡ (if ltb 1 (1 - 1) then 0 else get_or (7 ∷ 8 ∷ []) (1 - (1 - 1)) 0)
samples-fixed_delay_lem_example =
    samples-fixed_delay_lem naturals 0 1 1 (7 ∷ 8 ∷ []) silent (omega arith) (omega arith) refl
      (omega arith)
