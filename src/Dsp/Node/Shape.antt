-- ===== src/Dsp/Node/Shape.antt =====
-- A tick of src/dsp/dsp.cppm keeps the shape of a tree and of its buffers.
use rp4_demo.Base.{
  ℕ, zero, suc, ◌+◌, ◌-◌, ◌≡◌, refl, ap₂, sym, ◌∙◌, List, length, length-set, set, min,
}
use rp4_demo.Dsp.Floats.{Floats}
use rp4_demo.Dsp.State.{State}
use rp4_demo.Dsp.Node.{
  Node, constant, wire, cut, bin_op, unary_op, select2, mem_node, delay_node, fixed_delay, rd_table,
  rw_table, slider, button, checkbox, nentry, seq_node, par_node, split_node, merge_node, rec_node,
  group_node, n_in, n_out, fill, sum_into, tick,
}

module _ (fl : Floats) where
  open fl use {Float, f_zero}

  length-fill :
      (n at : ℕ) (f : ℕ → Float) (dst : List Float) → length (fill fl n at f dst) ≡ length dst
  unfolding fill
  length-fill zero at f dst = refl
  length-fill (suc n) at f dst =
      length-fill n (at + 1) _ (set dst at (f 0)) ∙ length-set dst at (f 0)

  length-sum_into :
      (n i bi : ℕ) (src dst : List Float) → length (sum_into fl n i bi src dst) ≡ length dst
  unfolding sum_into
  length-sum_into zero i bi src dst = refl
  length-sum_into (suc n) i bi src dst = length-sum_into n (i + 1) bi src _ ∙ length-set dst _ _

  -- Every scratch buffer is as long as the outputs it takes or the inputs it gives.
  abbrev pub Fits : Node fl → Type 0
  Fits (seq_node a b scratch) = Fits a × Fits b × (length scratch ≡ n_out fl a)
  Fits (par_node a b ao bo) = Fits a × Fits b × (length ao ≡ n_out fl a) × (length bo ≡ n_out fl b)
  Fits (split_node a b ao ex) = Fits a × Fits b × (length ao ≡ n_out fl a) × (length ex ≡ n_in fl b)
  Fits (merge_node a b ao sm) = Fits a × Fits b × (length ao ≡ n_out fl a) × (length sm ≡ n_in fl b)
  Fits (rec_node a b id ext ao bo) =
      Fits a
      × Fits b
      × (length ext ≡ n_in fl a)
      × (length ao ≡ n_out fl a)
      × (length bo ≡ n_out fl b)
  Fits (group_node body) = Fits body
  Fits _ = Unit

  -- `n'` has the inputs and the outputs of `n`.
  abbrev pub SameArity : Node fl → Node fl → Type 0
  SameArity n n' = (n_in fl n' ≡ n_in fl n) × (n_out fl n' ≡ n_out fl n)

  -- A tick keeps the inputs and the outputs of a node, the length of the caller's buffer and the lengths
  -- of all scratch buffers, whatever the inputs are.
  pub tick-Fits :
      (n : Node fl) (s : State fl) (xs out : List Float)
      → Fits n
      → Fits (tick fl n s xs out).0
        × SameArity n (tick fl n s xs out).0
        × (length (tick fl n s xs out).2 ≡ length out)
  unfolding tick n_in n_out
  tick-Fits (constant v) s xs out h = (tt, (refl, refl), length-set out 0 _)
  tick-Fits wire s xs out h = (tt, (refl, refl), length-set out 0 _)
  tick-Fits cut s xs out h = (tt, (refl, refl), refl)
  tick-Fits (bin_op op) s xs out h = (tt, (refl, refl), length-set out 0 _)
  tick-Fits (unary_op op) s xs out h = (tt, (refl, refl), length-set out 0 _)
  tick-Fits select2 s xs out h = (tt, (refl, refl), length-set out 0 _)
  tick-Fits (mem_node id) s xs out h = (tt, (refl, refl), length-set out 0 _)
  tick-Fits (delay_node id len) s xs out h = (tt, (refl, refl), length-set out 0 _)
  tick-Fits (fixed_delay id len) s xs out h = (tt, (refl, refl), length-set out 0 _)
  tick-Fits (rd_table t) s xs out h = (tt, (refl, refl), length-set out 0 _)
  tick-Fits (rw_table id size) s xs out h = (tt, (refl, refl), length-set out 0 _)
  tick-Fits (slider l i lo hi) s xs out h = (tt, (refl, refl), length-set out 0 _)
  tick-Fits (button l) s xs out h = (tt, (refl, refl), length-set out 0 _)
  tick-Fits (checkbox l) s xs out h = (tt, (refl, refl), length-set out 0 _)
  tick-Fits (nentry l i lo hi) s xs out h = (tt, (refl, refl), length-set out 0 _)
  tick-Fits (seq_node a b scratch) s xs out (fa, fb, k) =
      let (ga, (ia, oa), la) = tick-Fits a s xs scratch fa in
      let (gb, (ib, ob), lb) = tick-Fits b _ _ out fb in ((ga, gb, la ∙ k ∙ sym oa), (ia, ob), lb)
  tick-Fits (par_node a b ao bo) s xs out (fa, fb, ka, kb) =
      let (ga, (ia, oa), la) = tick-Fits a s _ ao fa in
      let (gb, (ib, ob), lb) = tick-Fits b _ _ bo fb in
      (
        (ga, gb, la ∙ ka ∙ sym oa, lb ∙ kb ∙ sym ob),
        (ap₂ (◌+◌) ia ib, ap₂ (◌+◌) oa ob),
        length-fill (n_out fl b) (n_out fl a) _ _ ∙ length-fill (n_out fl a) 0 _ out,
      )
  tick-Fits (split_node a b ao ex) s xs out (fa, fb, ka, kb) =
      let (ga, (ia, oa), la) = tick-Fits a s xs ao fa in
      let (gb, (ib, ob), lb) = tick-Fits b _ _ out fb in
      ((ga, gb, la ∙ ka ∙ sym oa, length-fill (n_in fl b) 0 _ ex ∙ kb ∙ sym ib), (ia, ob), lb)
  tick-Fits (merge_node a b ao sm) s xs out (fa, fb, ka, kb) =
      let (ga, (ia, oa), la) = tick-Fits a s xs ao fa in
      let (gb, (ib, ob), lb) = tick-Fits b _ _ out fb in
      (
        (
          ga,
          gb,
          la ∙ ka ∙ sym oa,
          length-sum_into (n_out fl a) 0 (n_in fl b) _ _
              ∙ length-fill (n_in fl b) 0 _ sm
              ∙ kb
              ∙ sym ib,
        ),
        (ia, ob),
        lb,
      )
  tick-Fits (rec_node a b id ext ao bo) s xs out (fa, fb, ke, ka, kb) =
      let (ga, (ia, oa), la) = tick-Fits a s _ ao fa in
      let (gb, (ib, ob), lb) = tick-Fits b _ _ bo fb in
      (
        (
          ga,
          gb,
          length-fill (n_out fl b - (n_out fl b - n_in fl a)) _ _ _
              ∙ length-fill (min (n_in fl a - n_out fl b) (length xs)) 0 _ ext
              ∙ ke
              ∙ sym ia,
          la ∙ ka ∙ sym oa,
          lb ∙ kb ∙ sym ob,
        ),
        (ap₂ (◌-◌) ia ob, oa),
        length-fill (min (n_out fl a) (length out)) 0 _ out,
      )
  tick-Fits (group_node body) s xs out h = tick-Fits body s xs out h
