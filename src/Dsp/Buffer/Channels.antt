-- ===== src/Dsp/Buffer/Channels.antt =====
-- `process_buffer_mc` of src/dsp/dsp.cppm, and `process_buffer` as its case of one channel.
use rp4_demo.Base.{
  ℕ, zero, suc, ◌+◌, ◌<◌, ◌≡◌, refl, ap, ◌∙◌, arith, List, [], ◌∷◌, set, get_or, replicate, lt→ltb,
}
use rp4_demo.Dsp.Floats.{Floats}
use rp4_demo.Dsp.State.{State}
use rp4_demo.Dsp.Node.{Node, n_in, n_out, tick}
use rp4_demo.Dsp.Buffer.{pack, unpack, samples_from, process_buffer}

module _ (fl : Floats) where
  open fl use {Float, f_zero}

  -- The input frame: a sample of each channel, zero behind the end of one and where there is no channel.
  pub pack_channels : ℕ → List (List Float) → ℕ → List Float
  pack_channels zero input i = []
  pack_channels (suc ins) [] i = f_zero ∷ pack_channels ins [] i
  pack_channels (suc ins) (c ∷ cs) i = get_or c i f_zero ∷ pack_channels ins cs i

  -- The loop over the outputs from channel `ch` on, with so many left. A write behind the end of a
  -- channel is left out.
  pub unpack_channels : ℕ → ℕ → List Float → List (List Float) → ℕ → List (List Float)
  unpack_channels ch zero out_frame output i = output
  unpack_channels ch (suc outs) out_frame [] i = []
  unpack_channels ch (suc outs) out_frame (o ∷ os) i =
      set o i (get_or out_frame ch f_zero) ∷ unpack_channels (ch + 1) outs out_frame os i

  pub samples_mc :
      ℕ
      → ℕ
      → ℕ
      → ℕ
      → Node fl
      → State fl
      → List (List Float)
      → List (List Float)
      → List Float
      → Node fl × State fl × List (List Float)
  unfolding pack_channels unpack_channels
  samples_mc zero i ins outs graph state input output out_frame = (graph, state, output)
  samples_mc (suc n) i ins outs graph state input output out_frame =
      let (graph', state', out_frame') =
        tick fl graph state (pack_channels ins input i) out_frame in
      samples_mc n (i + 1) ins outs graph' state' input (unpack_channels 0 outs out_frame' output i)
        out_frame'

  pub process_buffer_mc :
      Node fl
      → State fl
      → List (List Float)
      → List (List Float)
      → ℕ
      → Node fl × State fl × List (List Float)
  unfolding samples_mc
  process_buffer_mc graph state input output n_samples =
      samples_mc n_samples 0 (n_in fl graph) (n_out fl graph) graph state input output
        (replicate (n_out fl graph) f_zero)

  pack_channels-nil : (ins i : ℕ) → pack_channels ins [] i ≡ replicate ins f_zero
  unfolding pack_channels
  pack_channels-nil zero i = refl
  pack_channels-nil (suc ins) i = ap (λ fs. f_zero ∷ fs) (pack_channels-nil ins i)

  pack_channels-one :
      (ins : ℕ) (input : List Float) (i : ℕ)
      → pack_channels ins (input ∷ []) i ≡ pack fl ins input i
  unfolding pack_channels pack
  pack_channels-one zero input i = refl
  pack_channels-one (suc ins) input i =
      ap (λ fs. get_or input i f_zero ∷ fs) (pack_channels-nil ins i)

  unpack_channels-nil :
      (ch outs : ℕ) (out_frame : List Float) (i : ℕ) → unpack_channels ch outs out_frame [] i ≡ []
  unfolding unpack_channels
  unpack_channels-nil ch zero out_frame i = refl
  unpack_channels-nil ch (suc outs) out_frame i = refl

  unpack_channels-one :
      (outs : ℕ) (out_frame output : List Float) (i : ℕ)
      → 0 < outs
      → unpack_channels 0 outs out_frame (output ∷ []) i
        ≡ set output i (unpack fl outs out_frame) ∷ []
  unfolding unpack_channels
  unpack_channels-one zero out_frame output i h = ground arith
  unpack_channels-one (suc outs) out_frame output i h = rw (lt→ltb 0 (suc outs) h) (
      ap (λ os. set output i (get_or out_frame 0 f_zero) ∷ os)
        (unpack_channels-nil 1 outs out_frame i))

  -- The rounds behind one tick.
  abbrev after_tick :
      ℕ
      → ℕ
      → ℕ
      → ℕ
      → List Float
      → List Float
      → Node fl × State fl × List Float
      → Node fl × State fl × List (List Float)
  after_tick n i ins outs input output t =
      samples_mc n (i + 1) ins outs t.0 t.1 (input ∷ [])
        (unpack_channels 0 outs t.2 (output ∷ []) i) t.2

  -- A result on one channel.
  abbrev pub one_channel : Node fl × State fl × List Float → Node fl × State fl × List (List Float)
  one_channel r = (r.0, r.1, r.2 ∷ [])

  samples_mc-one :
      (n i ins outs : ℕ) (graph : Node fl) (state : State fl) (input output out_frame : List Float)
      → 0 < outs
      → samples_mc n i ins outs graph state (input ∷ []) (output ∷ []) out_frame
        ≡ one_channel (samples_from fl n i ins outs graph state input output out_frame)
  unfolding samples_mc samples_from
  samples_mc-one zero i ins outs graph state input output out_frame h = refl
  samples_mc-one (suc n) i ins outs graph state input output out_frame h =
      let t = tick fl graph state (pack fl ins input i) out_frame in
      ap (λ frame. after_tick n i ins outs input output (tick fl graph state frame out_frame))
        (pack_channels-one ins input i)
      ∙ ap (λ os. samples_mc n (i + 1) ins outs t.0 t.1 (input ∷ []) os t.2)
          (unpack_channels-one outs t.2 output i h)
      ∙ samples_mc-one n (i + 1) ins outs t.0 t.1 input (set output i (unpack fl outs t.2)) t.2 h

  -- With one channel in and one out, on a graph with at least one output, process_buffer_mc leaves the
  -- graph, the state and the samples that process_buffer leaves, for any state and number of samples.
  pub process_buffer_mc-one :
      (graph : Node fl) (state : State fl) (input output : List Float) (n_samples : ℕ)
      → 0 < n_out fl graph
      → process_buffer_mc graph state (input ∷ []) (output ∷ []) n_samples
        ≡ one_channel (process_buffer fl graph state input output n_samples)
  unfolding process_buffer_mc process_buffer
  process_buffer_mc-one graph state input output n_samples h =
      samples_mc-one n_samples 0 (n_in fl graph) (n_out fl graph) graph state input output _ h
