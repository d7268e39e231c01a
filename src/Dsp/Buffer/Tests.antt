-- ===== src/Dsp/Buffer/Tests.antt =====
-- The theorem on `process_buffer` and `process_buffer_mc` of src/dsp/dsp.cppm at a concrete node, with
-- natural numbers for floats.
use rp4_demo.Base.{[], ◌∷◌, ◌≡◌, ◌<◌, arith}
use rp4_demo.Dsp.Floats.{add}
use rp4_demo.Dsp.Naturals.{naturals, silent}
use rp4_demo.Dsp.Node.{bin_op, n_out}
use rp4_demo.Dsp.Buffer.Channels.{one_channel, process_buffer_mc, process_buffer_mc-one}
use rp4_demo.Dsp.Buffer.{process_buffer}

one_output : 0 < n_out naturals (bin_op add)
unfolding n_out
one_output = omega arith

process_buffer_mc-one_example :
    process_buffer_mc naturals (bin_op add) silent ((1 ∷ 2 ∷ []) ∷ []) ((0 ∷ 0 ∷ []) ∷ []) 2
    ≡ one_channel naturals (process_buffer naturals (bin_op add) silent (1 ∷ 2 ∷ []) (0 ∷ 0 ∷ []) 2)
process_buffer_mc-one_example =
    process_buffer_mc-one naturals (bin_op add) silent (1 ∷ 2 ∷ []) (0 ∷ 0 ∷ []) 2 one_output
