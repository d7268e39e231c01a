-- ===== src/Dsp/Eval/Natives.antt =====
-- The constants and the natives of `register_pm` in src/dsp/dsp.cppm.
pub mod Models
use rp4_demo.Base.{
  ℕ, zero, suc, Bool, true, false, Option, none, some, List, [], ◌∷◌, if◌then◌else◌, Text, text_eq,
  codes, Option-cases, inl, inr,
}
use rp4_demo.Dsp.Floats.{Floats, mul, div}
use rp4_demo.Dsp.Node.{Node, constant, wire, bin_op, mk_seq, mk_par}
use rp4_demo.Dsp.Ast.{Expr, Exprs, e_num, no_exprs, more_exprs}
use rp4_demo.Dsp.Program.{Env}
use rp4_demo.Dsp.Physical.{
  Physical, plucked, bowed, flute, clarinet, modal, mk_plucked, mk_bowed, mk_flute, mk_clarinet,
  mk_modal, pm_l2s, pm_f2l, pm_t60_decay, lit,
}
use rp4_demo.Dsp.Eval.{Evaluated, gives, calls_native, no_fuel, and_then, Evaluator}

module _ (fl : Floats) where
  open fl use {Float, f_zero, f_one, f_div, float_of}

  -- What a native gives: a tree, a model alone, or a tree in sequence with a model.
  pub data Native : Type 0 where
    graph : Node fl → Native
    model : Physical fl → Native
    driven : Node fl → Physical fl → Native

  abbrev lit_of : Text → Float
  lit_of t = lit fl t

  pub pm_constants : Float → List (Text × Expr Float)
  pm_constants sr =
      (codes "ma.SR", e_num sr)
      ∷ (codes "ma.PI", e_num (lit_of (codes "3.14159265358979")))
      ∷ (codes "ma.T", e_num (f_div f_one sr))
      ∷ []

  -- `args[k]`, where there is one.
  pub arg : ℕ → Exprs Float → Option (Expr Float)
  arg k no_exprs = none
  arg zero (more_exprs e es) = some e
  arg (suc k) (more_exprs e es) = arg k es

  -- The calls below are given `eval` and `try_const_eval`, the scope, and the arguments.
  module _ (ev : Evaluator fl) (const : Expr Float → Env Float → Evaluated (Option Float))
      (env : Env Float) (args : Exprs Float) where
    -- `if (args.size() > k) { auto v = try_const_eval(args[k], e); if (v) x = *v; }`
    pub const_or : ℕ → Float → Evaluated Float
    const_or k default = elim (arg k args) [
      | none ↦ gives default
      | some e ↦ and_then (const e env) (λ cv. elim cv [ none ↦ gives default | some v ↦ gives v ])
    ]

    -- `args.size() > k ? eval(args[k], e) : mk_const(x)`
    pub node_or : ℕ → Float → ℕ → Evaluated (Node fl × ℕ)
    node_or k default id = elim (arg k args) [
      | none ↦ gives (constant default, id)
      | some e ↦ ev e env id
    ]

    -- A model behind two arguments in parallel, which are evaluated in order.
    pub behind : ℕ → Float → ℕ → Float → Physical fl → ℕ → Evaluated (Native × ℕ)
    unfolding node_or
    behind i x j y m id =
        and_then (node_or i x id)
          (λ l. and_then (node_or j y l.1) (λ r. gives (driven (mk_par fl l.0 r.0) m, r.1)))

    -- The conversion of a constant, or of a signal by `other`, from the argument, if any.
    pub converted :
        (Float → Float) → Node fl → ℕ → Expr Float → Option Float → Evaluated (Native × ℕ)
    converted convert other id e (some v) = gives (graph (constant (convert v)), id)
    converted convert other id e none =
        and_then (ev e env id) (λ n. gives (graph (mk_seq fl n.0 other), n.1))

    pub unit_of : (Float → Float) → Node fl → ℕ → Option (Expr Float) → Evaluated (Native × ℕ)
    unfolding converted
    unit_of convert other id none = gives (graph (constant f_zero), id)
    unit_of convert other id (some e) = and_then (const e env) (converted convert other id e)

    pub unit : (Float → Float) → Node fl → ℕ → Evaluated (Native × ℕ)
    unfolding unit_of
    unit convert other id = unit_of convert other id (arg 0 args)

    pub l2s_native : Float → ℕ → Evaluated (Native × ℕ)
    unfolding unit
    l2s_native sr =
        unit (λ v. float_of (pm_l2s fl v sr))
          (mk_seq fl (mk_par fl wire (constant (f_div sr (lit_of (codes "340"))))) (bin_op mul))

    pub f2l_native : ℕ → Evaluated (Native × ℕ)
    unfolding unit
    f2l_native =
        unit (pm_f2l fl) (mk_seq fl (mk_par fl (constant (lit_of (codes "340"))) wire) (bin_op div))

    -- Both guitars; the plucked string does not use the position.
    pub guitar : Float → Float → Float → ℕ → Evaluated (Native × ℕ)
    unfolding const_or behind
    guitar sr ppos damping id = and_then (const_or 0 (lit_of (codes "0.65"))) (λ slen.
        and_then (const_or 1 ppos) (λ pos.
          behind 2 (lit_of (codes "0.8")) 3 f_zero (plucked (mk_plucked fl slen sr damping)) id))

    pub ks : Float → ℕ → Evaluated (Native × ℕ)
    unfolding const_or
    ks sr id = and_then (const_or 0 (lit_of (codes "0.65"))) (λ slen.
        and_then (const_or 1 (lit_of (codes "0.5")))
          (λ damp. gives (model (plucked (mk_plucked fl slen sr damp)), id)))

    pub violin : Float → ℕ → Evaluated (Native × ℕ)
    unfolding const_or behind
    violin sr id = and_then (const_or 0 (lit_of (codes "0.5"))) (λ slen.
        and_then (const_or 3 (lit_of (codes "0.12"))) (λ bpos.
          behind 2 (lit_of (codes "0.3")) 1 (lit_of (codes "0.5"))
            (bowed (mk_bowed fl slen sr bpos)) id))

    pub flute_native : Float → ℕ → Evaluated (Native × ℕ)
    unfolding const_or behind
    flute_native sr id = and_then (const_or 0 (lit_of (codes "0.5"))) (λ tlen.
        and_then (const_or 1 (lit_of (codes "0.2"))) (λ mpos.
          behind 2 (lit_of (codes "0.5")) 3 (lit_of (codes "0.05"))
            (flute (mk_flute fl tlen sr mpos)) id))

    pub clarinet_native : Float → ℕ → Evaluated (Native × ℕ)
    unfolding const_or behind
    clarinet_native sr id = and_then (const_or 0 (lit_of (codes "0.5"))) (λ tlen.
        behind 1 (lit_of (codes "0.5")) 2 (lit_of (codes "0.5")) (clarinet (mk_clarinet fl tlen sr))
          id)

    -- A mode of a bar or of a drum: its ratio, its decay from seconds, and its gain.
    abbrev mode : Float → Text → Text → Text → Float × Float × Float
    mode sr ratio seconds gain = (lit_of ratio, pm_t60_decay fl (lit_of seconds) sr, lit_of gain)

    abbrev pub marimba_modes : Float → List (Float × Float × Float)
    marimba_modes sr =
        mode sr (codes "1") (codes "3") (codes "1")
        ∷ mode sr (codes "3.984") (codes "2") (codes "0.6")
        ∷ mode sr (codes "9.723") (codes "1") (codes "0.3")
        ∷ mode sr (codes "16.55") (codes "0.5") (codes "0.15")
        ∷ mode sr (codes "24.36") (codes "0.3") (codes "0.08")
        ∷ []

    pub marimba : Float → ℕ → Evaluated (Native × ℕ)
    unfolding const_or behind
    marimba sr id = and_then (const_or 0 (lit_of (codes "440"))) (λ freq.
        let bar = modal (mk_modal fl freq sr (marimba_modes sr)) in
        let last_two = behind 4 (lit_of (codes "0.8")) 5 f_zero bar id in
        let next_two = behind 1 (lit_of (codes "0.8")) 2 f_zero bar id in
        elim (arg 5 args) [ none ↦ next_two | some e ↦ last_two ])

    abbrev pub djembe_modes : Float → List (Float × Float × Float)
    djembe_modes sr =
        mode sr (codes "1") (codes "1") (codes "1")
        ∷ mode sr (codes "1.59") (codes "0.7") (codes "0.8")
        ∷ mode sr (codes "2.14") (codes "0.4") (codes "0.5")
        ∷ mode sr (codes "2.65") (codes "0.25") (codes "0.3")
        ∷ mode sr (codes "3.16") (codes "0.15") (codes "0.2")
        ∷ mode sr (codes "3.65") (codes "0.1") (codes "0.12")
        ∷ []

    pub djembe : Float → ℕ → Evaluated (Native × ℕ)
    unfolding const_or behind
    djembe sr id = and_then (const_or 0 (lit_of (codes "60"))) (λ freq.
        behind 2 (lit_of (codes "0.8")) 3 f_zero (modal (mk_modal fl freq sr (djembe_modes sr))) id)

    -- The natives, by their names.
    pub natives : Float → ℕ → List (Text × Evaluated (Native × ℕ))
    unfolding l2s_native f2l_native guitar ks violin flute_native clarinet_native marimba djembe
    natives sr id =
        (codes "pm.l2s", l2s_native sr id)
        ∷ (codes "pm.f2l", f2l_native id)
        ∷ (codes "pm.nylonGuitar", guitar sr (lit_of (codes "0.5")) (lit_of (codes "0.5")) id)
        ∷ (codes "pm.elecGuitar", guitar sr (lit_of (codes "0.13")) (lit_of (codes "0.3")) id)
        ∷ (codes "pm.ks", ks sr id)
        ∷ (codes "pm.violin", violin sr id)
        ∷ (codes "pm.flute", flute_native sr id)
        ∷ (codes "pm.clarinet", clarinet_native sr id)
        ∷ (codes "pm.marimba", marimba sr id)
        ∷ (codes "pm.djembe", djembe sr id)
        ∷ []
