-- ===== src/Dsp/Node.antt =====
-- The nodes of src/dsp/dsp.cppm and their `tick`. A combinator keeps the scratch buffers that it was
-- built with: `tick` returns the node with what it has left in them. `out` is the caller's buffer.
mod Tests
pub mod Shape
pub mod Delays
use rp4_demo.Base.{
  ℕ, zero, suc, ◌+◌, ◌-◌, ◌%◌, Bool, Option, none, some, List, [], ◌∷◌, ◌++◌, ltb, ◌==◌,
  if◌then◌else◌, Text, min, max, take, drop, set, get_or, length, replicate,
}
use rp4_demo.Dsp.Floats.{Floats, BinOp, UnaryOp, apply_bin, apply_unary, clamp_index, f_clamp}
use rp4_demo.Dsp.State.{State, delay_write_read, fb_get, fb_set, param_get, put}

module _ (fl : Floats) where
  open fl use {Float, f_zero, f_one, f_nonzero, f_add, int_of}

  -- The identifiers are those that `fresh_id` gave. The numbers `ai`, `ao`, `bi`, `bo`, `fb_outs` and
  -- `ext_in` of the combinators are those of their children, `n_in` and `n_out` below.
  pub data Node : Type 0 where
    constant : Float → Node
    wire : Node
    cut : Node
    bin_op : BinOp → Node
    unary_op : UnaryOp → Node
    select2 : Node
    mem_node : ℕ → Node
    delay_node : ℕ → ℕ → Node
    fixed_delay : ℕ → ℕ → Node
    rd_table : List Float → Node
    rw_table : ℕ → ℕ → Node
    slider : Text → Float → Float → Float → Node
    button : Text → Node
    checkbox : Text → Node
    nentry : Text → Float → Float → Float → Node
    seq_node : Node → Node → List Float → Node
    par_node : Node → Node → List Float → List Float → Node
    split_node : Node → Node → List Float → List Float → Node
    merge_node : Node → Node → List Float → List Float → Node
    rec_node : Node → Node → ℕ → List Float → List Float → List Float → Node
    group_node : Node → Node

  unfoldable pub n_out : Node → ℕ
  n_out cut = 0
  n_out (seq_node a b scratch) = n_out b
  n_out (par_node a b a_out b_out) = n_out a + n_out b
  n_out (split_node a b a_out expanded) = n_out b
  n_out (merge_node a b a_out summed) = n_out b
  n_out (rec_node a b id ext a_out b_out) = n_out a
  n_out (group_node body) = n_out body
  n_out _ = 1

  pub n_in : Node → ℕ
  unfolding n_out
  n_in (constant v) = 0
  n_in (bin_op op) = 2
  n_in select2 = 3
  n_in (delay_node id len) = 2
  n_in (rw_table id size) = 3
  n_in (slider l i lo hi) = 0
  n_in (button l) = 0
  n_in (checkbox l) = 0
  n_in (nentry l i lo hi) = 0
  n_in (seq_node a b scratch) = n_in a
  n_in (par_node a b a_out b_out) = n_in a + n_in b
  n_in (split_node a b a_out expanded) = n_in a
  n_in (merge_node a b a_out summed) = n_in a
  n_in (rec_node a b id ext a_out b_out) = n_in a - n_out b
  n_in (group_node body) = n_in body
  n_in _ = 1

  -- The constructors of the nodes, which allocate the scratch buffers.
  abbrev pub mk_seq : Node → Node → Node
  mk_seq a b = seq_node a b (replicate (n_out a) f_zero)

  abbrev pub mk_par : Node → Node → Node
  mk_par a b = par_node a b (replicate (n_out a) f_zero) (replicate (n_out b) f_zero)

  abbrev pub mk_split : Node → Node → Node
  mk_split a b = split_node a b (replicate (n_out a) f_zero) (replicate (n_in b) f_zero)

  abbrev pub mk_merge : Node → Node → Node
  mk_merge a b = merge_node a b (replicate (n_out a) f_zero) (replicate (n_in b) f_zero)

  abbrev pub mk_rec : ℕ → Node → Node → Node
  mk_rec id a b =
      rec_node a b id (replicate (n_in a) f_zero) (replicate (n_out a) f_zero)
        (replicate (n_out b) f_zero)

  -- `in.size() > i ? in[i] : 0.f`
  abbrev pub input : List Float → ℕ → Float
  input xs i = get_or xs i f_zero

  -- `for (i = 0; i < n; ++i) dst[at + i] = f(i);`
  pub fill : ℕ → ℕ → (ℕ → Float) → List Float → List Float
  fill zero at f dst = dst
  fill (suc n) at f dst = fill n (at + 1) (λ i. f (i + 1)) (set dst at (f 0))

  -- `for (i = 0; i < ao; ++i) summed[i % bi] += a_out[i];`, from round `i` on.
  pub sum_into : ℕ → ℕ → ℕ → List Float → List Float → List Float
  sum_into zero i bi src dst = dst
  sum_into (suc n) i bi src dst =
      sum_into n (i + 1) bi src
        (set dst (i % bi) (f_add (get_or dst (i % bi) f_zero) (get_or src i f_zero)))

  -- `for (i = 0; i < n; ++i) s.fb_set(id + i, b_out[i]);`, from round `i` on.
  pub feed_back : ℕ → ℕ → ℕ → List Float → State fl → State fl
  feed_back zero i id src s = s
  feed_back (suc n) i id src s =
      feed_back n (i + 1) id src (fb_set fl (id + i) (get_or src i f_zero) s)

  -- `in.size() > i ? std::clamp(int(in[i]), 0, hi) : 0`
  abbrev pub index_input : List Float → ℕ → ℕ → ℕ
  index_input xs i hi = if ltb i (length xs) then clamp_index (int_of (input xs i)) hi else 0

  abbrev pub write_table : ℕ → ℕ → List Float → State fl → List Float
  write_table id size xs s =
      set (elim (s.delays id) [ [] ↦ replicate size f_zero | y ∷ ys ↦ y ∷ ys ])
        (index_input xs 0 (size - 1)) (input xs 1)

  -- `tick(s, in, out)`. What the code writes outside of a buffer is left out: for a recursion with
  -- `fb_outs > ext_in`, that is the first `fb_outs - ext_in` values of the feedback, which the code writes
  -- in front of `ext`. A split of no signals and a merge into none divide by 0 there; here what they read
  -- is 0, and what they write is nothing.
  pub tick : Node → State fl → List Float → List Float → Node × State fl × List Float
  unfolding fill sum_into feed_back n_in n_out
  tick (constant v) s xs out = (constant v, s, set out 0 v)
  tick wire s xs out = (wire, s, set out 0 (input xs 0))
  tick cut s xs out = (cut, s, out)
  tick (bin_op op) s xs out = (bin_op op, s, set out 0 (apply_bin fl op (input xs 0) (input xs 1)))
  tick (unary_op op) s xs out = (unary_op op, s, set out 0 (apply_unary fl op (input xs 0)))
  tick select2 s xs out =
      (select2, s, set out 0 (if f_nonzero (input xs 0) then input xs 2 else input xs 1))
  tick (mem_node id) s xs out =
      (mem_node id, fb_set fl id (input xs 0) s, set out 0 (fb_get fl id s))
  tick (delay_node id len) s xs out =
      let d : ℕ = if ltb 1 (length xs) then int_of (input xs 1) else 0 in
      let (y, s') = delay_write_read fl id len (input xs 0) d s in
      (delay_node id len, s', set out 0 y)
  tick (fixed_delay id len) s xs out =
      let (y, s') = delay_write_read fl id len (input xs 0) len s in
      (fixed_delay id len, s', set out 0 y)
  tick (rd_table table) s xs out =
      (rd_table table, s, set out 0 (get_or table (index_input xs 0 (length table - 1)) f_zero))
  tick (rw_table id size) s xs out =
      let buf = write_table id size xs s in
      (
        rw_table id size,
        record s { delays = put fl s.delays id buf },
        set out 0 (get_or buf (index_input xs 2 (size - 1)) f_zero),
      )
  tick (slider l i lo hi) s xs out =
      (slider l i lo hi, s, set out 0 (f_clamp fl (param_get fl l i s) lo hi))
  tick (button l) s xs out = (button l, s, set out 0 (param_get fl l f_zero s))
  tick (checkbox l) s xs out =
      (checkbox l, s, set out 0 (if f_nonzero (param_get fl l f_zero s) then f_one else f_zero))
  tick (nentry l i lo hi) s xs out =
      (nentry l i lo hi, s, set out 0 (f_clamp fl (param_get fl l i s) lo hi))
  tick (seq_node a b scratch) s xs out =
      let (a', s1, mid) = tick a s xs scratch in
      let (b', s2, out') = tick b s1 mid out in (seq_node a' b' mid, s2, out')
  tick (par_node a b a_out b_out) s xs out =
      let (a', s1, ao) = tick a s (take (min (n_in a) (length xs)) xs) a_out in
      let (b', s2, bo) = tick b s1 (drop (n_in a) xs) b_out in
      (
        par_node a' b' ao bo,
        s2,
        fill (n_out b) (n_out a) (input bo) (fill (n_out a) 0 (input ao) out),
      )
  tick (split_node a b a_out expanded) s xs out =
      let (a', s1, ao) = tick a s xs a_out in
      let ex = fill (n_in b) 0 (λ i. input ao (i % n_out a)) expanded in
      let (b', s2, out') = tick b s1 ex out in (split_node a' b' ao ex, s2, out')
  tick (merge_node a b a_out summed) s xs out =
      let (a', s1, ao) = tick a s xs a_out in
      let sm = sum_into (n_out a) 0 (n_in b) ao (fill (n_in b) 0 (λ i. f_zero) summed) in
      let (b', s2, out') = tick b s1 sm out in (merge_node a' b' ao sm, s2, out')
  tick (rec_node a b id ext a_out b_out) s xs out =
      let at = n_in a - n_out b in
      let outside = n_out b - n_in a in
      let ex =
        fill (n_out b - outside) at (λ i. fb_get fl (id + (outside + i)) s)
          (fill (min at (length xs)) 0 (input xs) ext) in
      let (a', s1, ao) = tick a s ex a_out in
      let (b', s2, bo) = tick b s1 ao b_out in
      (
        rec_node a' b' id ex ao bo,
        feed_back (n_out b) 0 id bo s2,
        fill (min (n_out a) (length out)) 0 (input ao) out,
      )
  tick (group_node body) s xs out =
      let (body', s', out') = tick body s xs out in (group_node body', s', out')
