-- ===== src/Dsp/Eval/Shapes.antt =====
-- The trees that `eval` of src/dsp/dsp.cppm builds have scratch buffers of the right lengths.
use rp4_demo.Base.{
  ℕ, zero, suc, Option, none, some, Text, length-replicate, ◌&&◌, Bool-cases, inl, inr,
  Option-cases,
}
use rp4_demo.Dsp.Floats.{Floats}
use rp4_demo.Dsp.Node.{Node, constant, wire, bin_op, unary_op}
use rp4_demo.Dsp.Node.Shape.{Fits}
use rp4_demo.Dsp.Ast.{
  Expr, Exprs, null_expr, e_num, e_wire, e_cut, e_select2, e_mem, e_delay, e_binop, e_unary,
  e_ident, e_fixed_delay, e_slider, e_button, e_checkbox, e_nentry, e_seq, e_par, e_split, e_merge,
  e_rec, e_call, e_group, e_with,
}
use rp4_demo.Dsp.Tokens.Ended.{is_nil, if-both}
use rp4_demo.Dsp.Parser.{one_of}
use rp4_demo.Dsp.Program.{FuncDef, Env}
use rp4_demo.Dsp.Eval.{
  Evaluated, gives, calls_native, no_fuel, and_then, lookup, binops, unaries, pm_natives, Built,
  built, Evaluator, both, eval_ident, from_lookups, eval_call, eval_kind, eval, try_const_eval,
}

-- Where the evaluation gives something, `P` holds of it.
abbrev pub Holds {ℓ κ} : {A : Type ℓ} → (A → Type κ) → Evaluated A → Type κ
Holds P (gives a) = P a
Holds P (calls_native name) = Unit
Holds P no_fuel = Unit

Holds-and_then {ℓ ℓ' κ κ'} :
    {A : Type ℓ} {B : Type ℓ'} (P : A → Type κ) (Q : B → Type κ') (r : Evaluated A)
    (k : A → Evaluated B)
    → Holds P r
    → ((a : A) → P a → Holds Q (k a))
    → Holds Q (and_then r k)
Holds-and_then P Q (gives a) k h next = next a h
Holds-and_then P Q (calls_native name) k h next = tt
Holds-and_then P Q no_fuel k h next = tt

pub Holds-map {ℓ κ κ'} :
    {A : Type ℓ} (P : A → Type κ) (Q : A → Type κ') (r : Evaluated A)
    → ((a : A) → P a → Q a)
    → Holds P r
    → Holds Q r
Holds-map P Q (gives a) f h = f a h
Holds-map P Q (calls_native name) f h = tt
Holds-map P Q no_fuel f h = tt

abbrev Any {ℓ} : {A : Type ℓ} → A → Type 0
Any a = Unit

anything {ℓ} : {A : Type ℓ} (r : Evaluated A) → Holds Any r
anything (gives a) = tt
anything (calls_native name) = tt
anything no_fuel = tt

module _ (fl : Floats) where
  open fl use {Float}

  abbrev pub FitsFirst : Node fl × ℕ → Type 0
  FitsFirst r = Fits fl r.0

  -- The evaluator gives trees whose buffers fit.
  abbrev Fitting : Evaluator fl → Type 0
  Fitting ev = (e : Expr Float) (env : Env Float) (id : ℕ) → Holds FitsFirst (ev e env id)

  both-Fits :
      (ev : Evaluator fl) (build : ℕ → Node fl → Node fl → Node fl × ℕ) (a b : Expr Float)
      (env : Env Float) (id : ℕ)
      → Fitting ev
      → ((i : ℕ) (l r : Node fl) → Fits fl l → Fits fl r → Fits fl (build i l r).0)
      → Holds FitsFirst (both fl ev build a b env id)
  unfolding both
  both-Fits ev build a b env id fits make =
      Holds-and_then FitsFirst FitsFirst (ev a env id) _ (fits a env id) λ l fl_l.
        Holds-and_then FitsFirst FitsFirst (ev b env l.1) _ (fits b env l.1)
          λ r fl_r. make r.1 l.0 r.0 fl_l fl_r

  from_lookups-Fits :
      (ev : Evaluator fl) (val : Option (Expr Float)) (func : Option (FuncDef Float))
      (env : Env Float) (id : ℕ)
      → Fitting ev
      → Holds FitsFirst (from_lookups fl ev val func env id)
  from_lookups-Fits ev (some v) func env id fits = fits v env id
  from_lookups-Fits ev none none env id fits = tt
  from_lookups-Fits ev none (some fd) env id fits =
      if-both (Holds FitsFirst) (is_nil fd.params) (λ _. fits fd.body env id) tt

  eval_call-Fits :
      (ev : Evaluator fl) (n : Text) (args : Exprs Float) (env : Env Float) (id : ℕ)
      → Fitting ev
      → Holds FitsFirst (eval_call fl ev n args env id)
  unfolding eval_call
  eval_call-Fits ev n args env id fits = elim (Bool-cases (env.pm && one_of n pm_natives)) [
    | inl native ↦ rw native tt
    | inr other ↦ elim (Option-cases (lookup n env.funcs)) [
      | inl no_func ↦ rw (other, no_func) tt
      | inr (fd, found) ↦ rw (other, found) (fits fd.body _ id)
    ]
  ]

  operator-Fits :
      {O : Type 0} (node : O → Node fl) (o : Option O) (id : ℕ)
      → ((a : O) → Fits fl (node a))
      → Holds FitsFirst (elim o [ none ↦ built fl wire id | some a ↦ built fl (node a) id ])
  operator-Fits node none id fits = tt
  operator-Fits node (some a) id fits = fits a

  eval_kind-Fits :
      (ev : Evaluator fl) (const : Expr Float → Env Float → Evaluated (Option Float))
      (e : Expr Float) (env : Env Float) (id : ℕ)
      → Fitting ev
      → Holds FitsFirst (eval_kind fl ev const e env id)
  unfolding eval_kind eval_ident
  eval_kind-Fits ev const null_expr env id fits = tt
  eval_kind-Fits ev const (e_num v) env id fits = tt
  eval_kind-Fits ev const e_wire env id fits = tt
  eval_kind-Fits ev const e_cut env id fits = tt
  eval_kind-Fits ev const e_select2 env id fits = tt
  eval_kind-Fits ev const e_mem env id fits = tt
  eval_kind-Fits ev const e_delay env id fits = tt
  eval_kind-Fits ev const (e_binop op) env id fits =
      operator-Fits bin_op (lookup op binops) id (λ o. tt)
  eval_kind-Fits ev const (e_unary op) env id fits =
      operator-Fits unary_op (lookup op unaries) id (λ o. tt)
  eval_kind-Fits ev const (e_ident n) env id fits =
      from_lookups-Fits ev (lookup n env.vals) (lookup n env.funcs) env id fits
  eval_kind-Fits ev const (e_fixed_delay e) env id fits =
      Holds-and_then Any FitsFirst (const e env) _ (anything (const e env)) λ cv _. tt
  eval_kind-Fits ev const (e_slider kind label init lo hi step) env id fits = tt
  eval_kind-Fits ev const (e_button label) env id fits = tt
  eval_kind-Fits ev const (e_checkbox label) env id fits = tt
  eval_kind-Fits ev const (e_nentry label init lo hi step) env id fits = tt
  eval_kind-Fits ev const (e_seq a b) env id fits =
      both-Fits ev _ a b env id fits λ i l r x y. (x, y, length-replicate _ _)
  eval_kind-Fits ev const (e_par a b) env id fits =
      both-Fits ev _ a b env id fits λ i l r x y. (x, y, length-replicate _ _, length-replicate _ _)
  eval_kind-Fits ev const (e_split a b) env id fits =
      both-Fits ev _ a b env id fits λ i l r x y. (x, y, length-replicate _ _, length-replicate _ _)
  eval_kind-Fits ev const (e_merge a b) env id fits =
      both-Fits ev _ a b env id fits λ i l r x y. (x, y, length-replicate _ _, length-replicate _ _)
  eval_kind-Fits ev const (e_rec a b) env id fits =
      both-Fits ev _ a b env id fits
        λ i l r x y. (x, y, length-replicate _ _, length-replicate _ _, length-replicate _ _)
  eval_kind-Fits ev const (e_call n args) env id fits = eval_call-Fits ev n args env id fits
  eval_kind-Fits ev const (e_group kind label body) env id fits =
      Holds-and_then FitsFirst FitsFirst (ev body env id) _ (fits body env id) λ b h. h
  eval_kind-Fits ev const (e_with body defs) env id fits = fits body _ id

  after_const :
      (r : Evaluated (Option Float)) (id : ℕ) (other : Built fl)
      → Holds FitsFirst other
      → Holds FitsFirst
          (and_then r (λ cv. elim cv [ some c ↦ built fl (constant c) id | none ↦ other ]))
  after_const (gives (some c)) id other h = tt
  after_const (gives none) id other h = h
  after_const (calls_native name) id other h = tt
  after_const no_fuel id other h = tt

  -- With any fuel, expression and scope: where eval builds a tree, every scratch buffer in it is as long as
  -- the outputs it takes or the inputs it gives, which is what a tick needs and keeps.
  pub eval-Fits :
      (f : ℕ) (e : Expr Float) (env : Env Float) (id : ℕ) → Holds FitsFirst (eval fl f e env id)
  unfolding eval
  eval-Fits zero e env id = tt
  eval-Fits (suc f) e env id =
      after_const (try_const_eval fl f e env) id
        (eval_kind fl (eval fl f) (try_const_eval fl f) e env id)
        (eval_kind-Fits (eval fl f) (try_const_eval fl f) e env id (eval-Fits f))
