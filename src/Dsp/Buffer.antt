-- ===== src/Dsp/Buffer.antt =====
-- `process_buffer` of src/dsp/dsp.cppm.
mod Tests
pub mod Channels
use rp4_demo.Base.{
  ℕ, zero, suc, ◌+◌, ◌≡◌, refl, ◌∙◌, List, [], ◌∷◌, length, length-set, set, get_or, replicate, ltb,
  if◌then◌else◌,
}
use rp4_demo.Dsp.Floats.{Floats}
use rp4_demo.Dsp.State.{State}
use rp4_demo.Dsp.Node.{Node, n_in, n_out, tick}
use rp4_demo.Dsp.Node.Shape.{Fits, tick-Fits}
use rp4_demo.Dsp.Ast.{Expr}
use rp4_demo.Dsp.Program.{Env}
use rp4_demo.Dsp.Eval.{eval, Evaluated}
use rp4_demo.Dsp.Eval.Shapes.{Holds, Holds-map, FitsFirst, eval-Fits}

module _ (fl : Floats) where
  open fl use {Float, f_zero}

  -- The input frame: the sample on the first channel, zero behind the input's end and on the others.
  pub pack : ℕ → List Float → ℕ → List Float
  pack zero input i = []
  pack (suc channels) input i = get_or input i f_zero ∷ replicate channels f_zero

  -- `no > 0 ? out_frame[0] : 0.f`
  abbrev pub unpack : ℕ → List Float → Float
  unpack outs out_frame = if ltb 0 outs then get_or out_frame 0 f_zero else f_zero

  -- The loop from sample `i` on, with so many rounds left; the numbers of channels are read once.
  pub samples_from :
      ℕ
      → ℕ
      → ℕ
      → ℕ
      → Node fl
      → State fl
      → List Float
      → List Float
      → List Float
      → Node fl × State fl × List Float
  unfolding pack
  samples_from zero i ins outs graph state input output out_frame = (graph, state, output)
  samples_from (suc n) i ins outs graph state input output out_frame =
      let (graph', state', out_frame') = tick fl graph state (pack ins input i) out_frame in
      samples_from n (i + 1) ins outs graph' state' input (set output i (unpack outs out_frame'))
        out_frame'

  pub process_buffer :
      Node fl → State fl → List Float → List Float → ℕ → Node fl × State fl × List Float
  unfolding samples_from
  process_buffer graph state input output n_samples =
      samples_from n_samples 0 (n_in fl graph) (n_out fl graph) graph state input output
        (replicate (n_out fl graph) f_zero)
