-- ===== src/Dsp/Parser/Reads.antt =====
-- The parts of `p_atom` of src/dsp/dsp.cppm read on, and call with at most one argument.
use rp4_demo.Base.{
  ℕ, zero, suc, ◌≤◌, ◌<◌, ◌≡◌, ◌≢◌, refl, arith, true, false, ◌&&◌, ◌||◌, List, [], ◌∷◌, ◌++◌, Text,
  text_eq, codes, length,
}
use rp4_demo.Dsp.Ast.{
  Expr, Exprs, Defs, null_expr, e_fixed_delay, e_slider, e_button, e_checkbox, e_nentry, e_seq,
  e_par, e_split, e_merge, e_rec, e_call, e_group, e_with, no_exprs, more_exprs, no_defs, more_defs,
}
use rp4_demo.Dsp.Tokens.{lp, rp, comma, semi, dot, id_tok, eof, tok_code, is_tok, Token}
use rp4_demo.Dsp.Tokens.Ended.{Ended, if-both}
use rp4_demo.Dsp.Parser.{
  ok, Parser, cur, at, four_numbers, one_label, skip_statement, qualified, more_args, p_args,
  bracketed, group, call, p_name, one_of, uops, named_binops,
}
use rp4_demo.Dsp.Parser.Outcome.{
  Gives, value, Gives-bind, Gives-if, Gives-map, eat-Gives, expect-Gives, take_text-Gives,
  take_num-Gives,
}

abbrev pub count : {Float : Type 0} → Exprs Float → ℕ
count no_exprs = 0
count (more_exprs e es) = suc (count es)

-- Every call in the expression has at most one argument.
module _ {Float : Type 0} where
  unfoldable mutual
    pub OneArg : Expr Float → Type 0
    OneArg (e_fixed_delay e) = OneArg e
    OneArg (e_seq a b) = OneArg a × OneArg b
    OneArg (e_par a b) = OneArg a × OneArg b
    OneArg (e_split a b) = OneArg a × OneArg b
    OneArg (e_merge a b) = OneArg a × OneArg b
    OneArg (e_rec a b) = OneArg a × OneArg b
    OneArg (e_call name args) = (count args ≤ 1) × OneArgs args
    OneArg (e_group kind label body) = OneArg body
    OneArg (e_with body defs) = OneArg body × OneArgDefs defs
    OneArg _ = Unit

    pub OneArgs : Exprs Float → Type 0
    OneArgs no_exprs = Unit
    OneArgs (more_exprs e es) = OneArg e × OneArgs es

    pub OneArgDefs : Defs Float → Type 0
    OneArgDefs no_defs = Unit
    OneArgDefs (more_defs name e ds) = OneArg e × OneArgDefs ds

module _ {Float : Type 0} (f_nil : Float) where
  -- What is left is no more than what there was, and the expression calls with at most one argument.
  abbrev pub Rest : List (Token Float) → Expr Float × List (Token Float) → Type 0
  Rest ts r = (length r.1 ≤ length ts) × Ended r.1 × OneArg r.0

  -- The same, with at least one token read and no comma next.
  abbrev pub Whole : List (Token Float) → Expr Float × List (Token Float) → Type 0
  Whole ts r = (length r.1 < length ts) × Ended r.1 × OneArg r.0 × (at f_nil comma r.1 ≡ false)

  -- `p` reads inputs of fewer than `n` tokens.
  abbrev pub Reads : ℕ → Parser f_nil (Expr Float) → Type 0
  Reads n p = (ts : List (Token Float)) → length ts < n → Ended ts → Gives (Whole ts) (p ts)

  -- The codes of two tokens differ.
  pub lp_other : tok_code lp ≢ tok_code eof
  unfolding tok_code
  lp_other = λ e. omega (arith, e)

  rp_other : tok_code rp ≢ tok_code eof
  unfolding tok_code
  rp_other = λ e. omega (arith, e)

  pub comma_other : tok_code comma ≢ tok_code eof
  unfolding tok_code
  comma_other = λ e. omega (arith, e)

  pub one_label-Gives :
      (build : Text → Expr Float) (ts : List (Token Float))
      → ((l : Text) → OneArg (build l))
      → Ended ts
      → Gives (Rest ts) (one_label f_nil build ts)
  unfolding one_label
  one_label-Gives build ts plain ended =
      Gives-bind (expect-Gives f_nil lp ts ended lp_other) λ (_, us) (a, ea, pa).
        Gives-bind (take_text-Gives f_nil us ea pa) λ (l, vs) (b, eb).
          Gives-bind (expect-Gives f_nil rp vs eb rp_other)
            λ (_, ws) (c, ec, pc). value (omega arith, ec, plain l)

  pub four_numbers-Gives :
      (build : Text → Float → Float → Float → Float → Expr Float) (ts : List (Token Float))
      → ((l : Text) (x y z w : Float) → OneArg (build l x y z w))
      → Ended ts
      → Gives (Rest ts) (four_numbers f_nil build ts)
  unfolding four_numbers
  four_numbers-Gives build ts plain ended =
      Gives-bind (expect-Gives f_nil lp ts ended lp_other) λ (_, t1) (a, e1, p1).
        Gives-bind (take_text-Gives f_nil t1 e1 p1) λ (l, t2) (b, e2).
          Gives-bind (expect-Gives f_nil comma t2 e2 comma_other) λ (_, t3) (c, e3, p3).
            Gives-bind (take_num-Gives f_nil t3 e3 p3) λ (x, t4) (d, e4).
              Gives-bind (expect-Gives f_nil comma t4 e4 comma_other) λ (_, t5) (f, e5, p5).
                Gives-bind (take_num-Gives f_nil t5 e5 p5) λ (y, t6) (g, e6).
                  Gives-bind (expect-Gives f_nil comma t6 e6 comma_other) λ (_, t7) (h, e7, p7).
                    Gives-bind (take_num-Gives f_nil t7 e7 p7) λ (z, t8) (i, e8).
                      Gives-bind (expect-Gives f_nil comma t8 e8 comma_other) λ (_, t9) (j, e9, p9).
                        Gives-bind (take_num-Gives f_nil t9 e9 p9) λ (w, t10) (k, e10).
                          Gives-bind (expect-Gives f_nil rp t10 e10 rp_other)
                            λ (_, t11) (m, e11, p11). value (omega arith, e11, plain l x y z w)

  pub skip_statement-Ended :
      (ts : List (Token Float))
      → Ended ts
      → Ended (skip_statement f_nil ts) × (length (skip_statement f_nil ts) ≤ length ts)
  unfolding skip_statement
  skip_statement-Ended [] ended = (tt, omega arith)
  skip_statement-Ended (t ∷ ts) (last, ended) =
      let (e, l) = skip_statement-Ended ts ended in
      if-both (λ (us : List (Token Float)). Ended us × (length us ≤ suc (length ts)))
        (is_tok t.type semi || is_tok t.type eof) (λ _. ((last, ended), omega arith))
        (e, omega arith)

  -- In front of an identifier at least that is skipped.
  pub skip_statement-Inside :
      (ts : List (Token Float))
      → Ended ts
      → at f_nil id_tok ts ≡ true
      → Ended (skip_statement f_nil ts) × (length (skip_statement f_nil ts) < length ts)
  unfolding skip_statement tok_code cur
  skip_statement-Inside [] ended here = absurd (ground (arith, here))
  skip_statement-Inside (t ∷ ts) (last, ended) here =
      let (e, l) = skip_statement-Ended ts ended in
      let go_on : (is_tok t.type semi || is_tok t.type eof) ≡ false = ground (arith, here) in
      rw go_on (e, omega arith)

  pub qualified-Ended :
      (name : Text) (ts : List (Token Float))
      → Ended ts
      → Ended (qualified f_nil name ts).1 × (length (qualified f_nil name ts).1 ≤ length ts)
  unfolding qualified
  qualified-Ended name [] ended = (tt, omega arith)
  qualified-Ended name (t ∷ []) ended = (ended, omega arith)
  qualified-Ended name (t ∷ u ∷ ts) (last, (last', ended)) =
      let (e, l) = qualified-Ended (name ++ (b'.' ∷ u.text)) ts ended in
      if-both (λ (r : Text × List (Token Float)). Ended r.1 × (length r.1 ≤ suc (suc (length ts))))
        (is_tok t.type dot && is_tok u.type id_tok) (λ _. (e, omega arith))
        ((last, (last', ended)), omega arith)

  module _ (expr : Parser f_nil (Expr Float)) (n : ℕ) (reads : Reads n expr) where
    -- After an argument there is no comma, so no second one is read.
    pub more_args-Gives :
        (f : ℕ) (ts : List (Token Float))
        → 0 < f
        → at f_nil comma ts ≡ false
        → more_args f_nil expr f ts ≡ ok (no_exprs, ts)
    unfolding more_args
    more_args-Gives zero ts h last = absurd (omega arith)
    more_args-Gives (suc f) ts h last = rw last refl

    abbrev pub Args : List (Token Float) → Exprs Float × List (Token Float) → Type 0
    Args ts r = (length r.1 ≤ length ts) × Ended r.1 × (count r.0 ≤ 1) × OneArgs r.0

    pub p_args-Gives :
        (f : ℕ) (ts : List (Token Float))
        → 0 < f
        → length ts < n
        → Ended ts
        → Gives (Args ts) (p_args f_nil expr f ts)
    unfolding p_args OneArgs
    p_args-Gives f ts h short ended =
        Gives-if (at f_nil rp ts) (λ _. value (omega arith, ended, omega arith, tt))
          λ _. Gives-bind (reads ts short ended) λ (a, us) (l, e, one, last).
            rw (more_args-Gives f us h last) (value (omega arith, e, omega arith, (one, tt)))

    pub bracketed-Gives :
        (ts : List (Token Float))
        → length ts < n
        → Ended ts
        → Gives (Rest ts) (bracketed f_nil expr ts)
    unfolding bracketed
    bracketed-Gives ts short ended = Gives-bind (reads ts short ended) λ (x, us) (a, ea, one, last).
        Gives-bind (expect-Gives f_nil rp us ea rp_other)
          λ (_, vs) (b, eb, pb). value (omega arith, eb, one)

    pub group-Gives :
        (name : Text) (ts : List (Token Float))
        → length ts < n
        → Ended ts
        → Gives (Rest ts) (group f_nil expr name ts)
    unfolding group OneArg
    group-Gives name ts short ended =
        Gives-bind (expect-Gives f_nil lp ts ended lp_other) λ (_, t1) (a, e1, p1).
          Gives-bind (take_text-Gives f_nil t1 e1 p1) λ (l, t2) (b, e2).
            Gives-bind (expect-Gives f_nil comma t2 e2 comma_other) λ (_, t3) (c, e3, p3).
              Gives-bind (reads t3 (omega arith) e3) λ (x, t4) (d, e4, one, last).
                Gives-bind (expect-Gives f_nil rp t4 e4 rp_other)
                  λ (_, t5) (f, e5, p5). value (omega arith, e5, one)

    pub call-Gives :
        (f : ℕ) (name : Text) (ts : List (Token Float))
        → 0 < f
        → length ts < n
        → Ended ts
        → Gives (Rest ts) (call f_nil expr f name ts)
    unfolding call OneArg
    call-Gives f name ts h short ended =
        Gives-bind (p_args-Gives f ts h short ended) λ (args, us) (a, ea, few, ones).
          Gives-bind (expect-Gives f_nil rp us ea rp_other)
            λ (_, vs) (b, eb, pb). value (omega arith, eb, (few, ones))

    skipped :
        (ts : List (Token Float))
        → Ended ts
        → Gives (Rest ts) (ok (null_expr, skip_statement f_nil ts))
    unfolding OneArg
    skipped ts ended = let (e, l) = skip_statement-Ended ts ended in value (l, e, tt)

    pub p_name-Gives :
        (f : ℕ) (name : Text) (ts : List (Token Float))
        → 0 < f
        → length ts < n
        → Ended ts
        → Gives (Rest ts) (p_name f_nil expr f name ts)
    unfolding p_name OneArg
    p_name-Gives f name ts h short ended =
        Gives-if (one_of name uops) (λ _. value (omega arith, ended, tt))
          λ _.
            Gives-if (text_eq name (codes "mem")) (λ _. value (omega arith, ended, tt))
              λ _.
                Gives-if (text_eq name (codes "select2")) (λ _. value (omega arith, ended, tt))
                  λ _.
                    Gives-if (one_of name named_binops) (λ _. value (omega arith, ended, tt))
                      λ _.
                        Gives-if (one_of name (codes "hslider" ∷ codes "vslider" ∷ []))
                          (λ _. four_numbers-Gives (e_slider name) ts (λ l x y z w. tt) ended)
                          λ _.
                            Gives-if (text_eq name (codes "button"))
                              (λ _. one_label-Gives e_button ts (λ l. tt) ended)
                              λ _.
                                Gives-if (text_eq name (codes "checkbox"))
                                  (λ _. one_label-Gives e_checkbox ts (λ l. tt) ended)
                                  λ _.
                                    Gives-if (text_eq name (codes "nentry"))
                                      (λ _. four_numbers-Gives e_nentry ts (λ l x y z w. tt) ended)
                                      λ _.
                                        Gives-if
                                          (one_of name
                                            (codes "hgroup" ∷ codes "vgroup" ∷ codes "tgroup" ∷ []))
                                          (λ _. group-Gives name ts short ended)
                                          λ _.
                                            Gives-if
                                              (one_of name (codes "declare" ∷ codes "import" ∷ []))
                                              (λ _. skipped ts ended)
                                              λ _.
                                                Gives-if (at f_nil lp ts)
                                                  (λ here.
                                                    Gives-bind
                                                      (eat-Gives f_nil lp ts ended lp_other here)
                                                      λ (_, us) (a, ea, pa).
                                                        Gives-map
                                                          (call-Gives f name us h (omega arith) ea)
                                                          λ (x, vs) (l, e, one).
                                                            (omega arith, e, one))
                                                  (λ _. value (omega arith, ended, tt))
