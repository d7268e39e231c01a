-- ===== src/Dsp/Eval.antt =====
-- `try_const_eval` and `eval` of src/dsp/dsp.cppm, on fuel: a definition that names itself has no value.
-- Of two children the left one is evaluated first, which the language leaves open.
pub mod Shapes
pub mod Natives
use rp4_demo.Base.{
  ℕ, zero, suc, ◌+◌, Bool, true, false, ◌&&◌, Option, none, some, List, [], ◌∷◌, if◌then◌else◌,
  Text, text_eq, codes,
}
use rp4_demo.Dsp.Floats.{
  Floats, BinOp, UnaryOp, add, sub, mul, div, fmod, pow, min_of, max_of, and, or, xor, shl, shr,
  atan2, rem, sin, cos, tan, asin, acos, atan, sqrt, exp, log, log10, abs, floor, ceil, rint,
  to_int, to_float, neg,
}
use rp4_demo.Dsp.Node.{
  Node, constant, wire, cut, bin_op, unary_op, select2, mem_node, delay_node, fixed_delay, slider,
  button, checkbox, nentry, group_node, mk_seq, mk_par, mk_split, mk_merge, mk_rec,
}
use rp4_demo.Dsp.Ast.{
  Expr, Exprs, Defs, null_expr, e_num, e_wire, e_cut, e_select2, e_mem, e_delay, e_binop, e_unary,
  e_ident, e_fixed_delay, e_slider, e_button, e_checkbox, e_nentry, e_seq, e_par, e_split, e_merge,
  e_rec, e_call, e_group, e_with, no_exprs, more_exprs, no_defs, more_defs,
}
use rp4_demo.Dsp.Tokens.Ended.{is_nil}
use rp4_demo.Dsp.Parser.{one_of}
use rp4_demo.Dsp.Program.{FuncDef, Env}
use rp4_demo.Dsp.Physical.{at_least}

pub data Evaluated {ℓ} (A : Type ℓ) : Type ℓ where
  gives : A → Evaluated A
  -- a native of the physical models is called, of which only the nodes are modelled
  calls_native : Text → Evaluated A
  no_fuel : Evaluated A

abbrev pub and_then {ℓ κ} :
    {A : Type ℓ} {B : Type κ} → Evaluated A → (A → Evaluated B) → Evaluated B
and_then (gives a) k = k a
and_then (calls_native name) k = calls_native name
and_then no_fuel k = no_fuel

-- `lookup_val` and `lookup_func`: a scope's own names come before those of its parents.
abbrev pub lookup {ℓ} : {A : Type ℓ} → Text → List (Text × A) → Option A
lookup n [] = none
lookup n ((m, a) ∷ table) = if text_eq m n then some a else lookup n table

abbrev pub binops : List (Text × BinOp)
binops =
    (codes "+", add)
    ∷ (codes "-", sub)
    ∷ (codes "*", mul)
    ∷ (codes "/", div)
    ∷ (codes "%", fmod)
    ∷ (codes "^", pow)
    ∷ (codes "min", min_of)
    ∷ (codes "max", max_of)
    ∷ (codes "&", and)
    ∷ (codes "|", or)
    ∷ (codes "xor", xor)
    ∷ (codes "<<", shl)
    ∷ (codes ">>", shr)
    ∷ (codes "atan2", atan2)
    ∷ (codes "remainder", rem)
    ∷ []

abbrev pub unaries : List (Text × UnaryOp)
unaries =
    (codes "sin", sin)
    ∷ (codes "cos", cos)
    ∷ (codes "tan", tan)
    ∷ (codes "asin", asin)
    ∷ (codes "acos", acos)
    ∷ (codes "atan", atan)
    ∷ (codes "sqrt", sqrt)
    ∷ (codes "exp", exp)
    ∷ (codes "log", log)
    ∷ (codes "log10", log10)
    ∷ (codes "abs", abs)
    ∷ (codes "floor", floor)
    ∷ (codes "ceil", ceil)
    ∷ (codes "rint", rint)
    ∷ (codes "int", to_int)
    ∷ (codes "float", to_float)
    ∷ (codes "neg", neg)
    ∷ []

-- The names that `register_pm` gives to natives.
abbrev pub pm_natives : List Text
pm_natives =
    codes "pm.l2s"
    ∷ codes "pm.f2l"
    ∷ codes "pm.nylonGuitar"
    ∷ codes "pm.elecGuitar"
    ∷ codes "pm.ks"
    ∷ codes "pm.violin"
    ∷ codes "pm.flute"
    ∷ codes "pm.clarinet"
    ∷ codes "pm.marimba"
    ∷ codes "pm.djembe"
    ∷ []

module _ (fl : Floats) where
  open fl use {Float, f_neg, f_math, int_of, float_of}

  -- The operation on a constant, where the right side is one that is folded.
  pub fold_unary : Float → Expr Float → Option Float
  fold_unary a (e_unary op) =
      if text_eq op (codes "neg")
      then some (f_neg a)
      else if text_eq op (codes "int")
      then some (float_of (int_of a))
      else if text_eq op (codes "float")
      then some a
      else if text_eq op (codes "sin")
      then some (f_math sin a)
      else if text_eq op (codes "cos")
      then some (f_math cos a)
      else none
  fold_unary a e = none

  abbrev pub Vals : Type 0
  Vals = List (Text × Expr Float)

  -- The constants of a call's arguments, bound to the parameters.
  pub const_args :
      (Expr Float → Evaluated (Option Float))
      → List Text
      → Exprs Float
      → Vals
      → Evaluated (Option Vals)
  const_args const [] args vals = gives (some vals)
  const_args const (p ∷ ps) no_exprs vals = gives (some vals)
  const_args const (p ∷ ps) (more_exprs e es) vals =
      and_then (const e) (λ cv. elim cv [
        | none ↦ gives none
        | some c ↦ const_args const ps es ((p, e_num c) ∷ vals)
      ])

  pub try_const_eval : ℕ → Expr Float → Env Float → Evaluated (Option Float)
  unfolding fold_unary const_args
  try_const_eval zero e env = no_fuel
  try_const_eval (suc f) (e_num v) env = gives (some v)
  try_const_eval (suc f) (e_ident n) env = elim (lookup n env.vals) [
    | none ↦ gives none
    | some v ↦ try_const_eval f v env
  ]
  try_const_eval (suc f) (e_seq a b) env =
      and_then (try_const_eval f a env)
        (λ cv. elim cv [ none ↦ gives none | some c ↦ gives (fold_unary c b) ])
  try_const_eval (suc f) (e_call n args) env = elim (lookup n env.funcs) [
    | none ↦ gives none
    | some fd ↦
        and_then (const_args (λ e. try_const_eval f e env) fd.params args env.vals) (λ bound.
          elim bound [
            | none ↦ gives none
            | some vals ↦ try_const_eval f fd.body (record env { vals = vals })
          ])
  ]
  try_const_eval (suc f) e env = gives none

  -- The node, and the next identifier of `fresh_id`.
  abbrev pub Built : Type 0
  Built = Evaluated (Node fl × ℕ)

  abbrev pub built : Node fl → ℕ → Built
  built n id = gives (n, id)

  -- `child.vals[params[i]] = args[i]`
  pub bind_args : List Text → Exprs Float → Vals → Vals
  bind_args (p ∷ ps) (more_exprs e es) vals = bind_args ps es ((p, e) ∷ vals)
  bind_args _ _ vals = vals

  pub bind_defs : Defs Float → Vals → Vals
  bind_defs no_defs vals = vals
  bind_defs (more_defs n e ds) vals = bind_defs ds ((n, e) ∷ vals)

  abbrev pub Evaluator : Type 0
  Evaluator = Expr Float → Env Float → ℕ → Built

  -- A combinator of two evaluated children; `build` takes the identifier behind theirs.
  pub both :
      Evaluator
      → (ℕ → Node fl → Node fl → Node fl × ℕ)
      → Expr Float
      → Expr Float
      → Env Float
      → ℕ
      → Built
  both ev build a b env id =
      and_then (ev a env id) (λ l. and_then (ev b env l.1) (λ r. gives (build r.1 l.0 r.0)))

  abbrev pub plain : (Node fl → Node fl → Node fl) → ℕ → Node fl → Node fl → Node fl × ℕ
  plain make id l r = (make l r, id)

  -- `EIdent`, from what the two lookups found, and `ECall`.
  abbrev pub from_lookups :
      Evaluator → Option (Expr Float) → Option (FuncDef Float) → Env Float → ℕ → Built
  from_lookups ev (some v) func env id = ev v env id
  from_lookups ev none none env id = built wire id
  from_lookups ev none (some fd) env id =
      if is_nil fd.params then ev fd.body env id else built wire id

  pub eval_ident : Evaluator → Text → Env Float → ℕ → Built
  eval_ident ev n env id = from_lookups ev (lookup n env.vals) (lookup n env.funcs) env id

  pub eval_call : Evaluator → Text → Exprs Float → Env Float → ℕ → Built
  unfolding bind_args
  eval_call ev n args env id =
      if env.pm && one_of n pm_natives then calls_native n else elim (lookup n env.funcs) [
        | none ↦ built wire id
        | some fd ↦ ev fd.body (record env { vals = bind_args fd.params args env.vals }) id
      ]

  -- The switch of `eval`; `ev` is `eval` itself, and `const` is `try_const_eval`.
  pub eval_kind : Evaluator → (Expr Float → Env Float → Evaluated (Option Float)) → Evaluator
  unfolding both eval_ident eval_call bind_defs
  eval_kind ev const (e_num v) env id = built (constant v) id
  eval_kind ev const e_cut env id = built cut id
  eval_kind ev const e_mem env id = built (mem_node id) (id + 1)
  eval_kind ev const e_delay env id = built (delay_node id 192000) (id + 1)
  eval_kind ev const (e_binop op) env id = elim (lookup op binops) [
    | none ↦ built wire id
    | some o ↦ built (bin_op o) id
  ]
  eval_kind ev const (e_unary op) env id = elim (lookup op unaries) [
    | none ↦ built wire id
    | some o ↦ built (unary_op o) id
  ]
  eval_kind ev const e_select2 env id = built select2 id
  eval_kind ev const (e_slider kind label init lo hi step) env id =
      built (slider label init lo hi) id
  eval_kind ev const (e_button label) env id = built (button label) id
  eval_kind ev const (e_checkbox label) env id = built (checkbox label) id
  eval_kind ev const (e_nentry label init lo hi step) env id = built (nentry label init lo hi) id
  eval_kind ev const (e_seq a b) env id = both ev (plain (mk_seq fl)) a b env id
  eval_kind ev const (e_par a b) env id = both ev (plain (mk_par fl)) a b env id
  eval_kind ev const (e_split a b) env id = both ev (plain (mk_split fl)) a b env id
  eval_kind ev const (e_merge a b) env id = both ev (plain (mk_merge fl)) a b env id
  eval_kind ev const (e_rec a b) env id = both ev (λ i l r. (mk_rec fl i l r, i + 1)) a b env id
  eval_kind ev const (e_group kind label body) env id =
      and_then (ev body env id) (λ b. gives (group_node b.0, b.1))
  eval_kind ev const (e_fixed_delay e) env id = and_then (const e env) (λ cv.
      built (fixed_delay id (elim cv [ none ↦ 4096 | some c ↦ at_least fl 1 (int_of c) ])) (id + 1))
  eval_kind ev const (e_ident n) env id = eval_ident ev n env id
  eval_kind ev const (e_call n args) env id = eval_call ev n args env id
  eval_kind ev const (e_with body defs) env id =
      ev body (record env { vals = bind_defs defs env.vals }) id
  eval_kind ev const e env id = built wire id

  pub eval : ℕ → Evaluator
  unfolding eval_kind try_const_eval
  eval zero e env id = no_fuel
  eval (suc f) e env id = and_then (try_const_eval f e env) (λ cv. elim cv [
    | some c ↦ built (constant c) id
    | none ↦ eval_kind (eval f) (try_const_eval f) e env id
  ])
