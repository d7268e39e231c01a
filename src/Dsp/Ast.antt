-- ===== src/Dsp/Ast.antt =====
-- The expressions of src/dsp/dsp.cppm, over the type of floats. A constructor is a `Kind` with the fields
-- that its builder sets; `null_expr` is a null pointer, which the parser gives for `declare`.
use rp4_demo.Base.{Text}

module _ (Float : Type 0) where
  mutual
    pub data Expr : Type 0 where
      null_expr : Expr
      e_num : Float → Expr
      e_wire e_cut e_select2 e_mem e_delay : Expr
      e_binop e_unary e_ident : Text → Expr
      e_fixed_delay : Expr → Expr
      -- kind, label, init, lo, hi, step
      e_slider : Text → Text → Float → Float → Float → Float → Expr
      e_button e_checkbox : Text → Expr
      e_nentry : Text → Float → Float → Float → Float → Expr
      e_seq e_par e_split e_merge e_rec : Expr → Expr → Expr
      e_call : Text → Exprs → Expr
      -- kind, label, body
      e_group : Text → Text → Expr → Expr
      e_with : Expr → Defs → Expr

    pub data Exprs : Type 0 where
      no_exprs : Exprs
      more_exprs : Expr → Exprs → Exprs

    pub data Defs : Type 0 where
      no_defs : Defs
      more_defs : Text → Expr → Defs → Defs
