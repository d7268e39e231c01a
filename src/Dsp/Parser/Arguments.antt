-- ===== src/Dsp/Parser/Arguments.antt =====
-- Every run of the parser of src/dsp/dsp.cppm ends, inside the tokens, and its calls have at most one
-- argument.
use rp4_demo.Base.{
  ℕ, zero, suc, ◌≤◌, ◌<◌, ◌≡◌, ◌≢◌, arith, true, false, Option, none, some, List, [], ◌∷◌, codes,
  length,
}
use rp4_demo.Dsp.Ast.{Expr, e_wire, e_binop, e_seq, e_par, e_split, e_merge, e_rec}
use rp4_demo.Dsp.Tokens.{
  Tok, num_tok, under, id_tok, star, lp, comma, colon, split_op, merge_op, tilde, eof, tok_code,
  is_tok, Token,
}
use rp4_demo.Dsp.Tokens.Ended.{Ended}
use rp4_demo.Dsp.Parser.{
  ok, bind, Parser, at, eat, qualified, loop, simple, bracketed, p_first, p_later, or_later, p_atom,
  p_par, p_seq, p_split, p_merge, p_tilde, p_expr,
}
use rp4_demo.Dsp.Parser.Outcome.{
  Gives, value, exception, Gives-bind, Gives-if, Gives-map, eat-Gives,
}
use rp4_demo.Dsp.Parser.Reads.{
  OneArg, Rest, Reads, lp_other, qualified-Ended, bracketed-Gives, p_name-Gives,
}

module _ {Float : Type 0} (f_nil : Float) where
  -- A part of an expression that leaves fewer tokens, of which `Q` holds.
  abbrev Part :
      (List (Token Float) → Type 0) → List (Token Float) → Expr Float × List (Token Float) → Type 0
  Part Q ts r = (length r.1 < length ts) × Ended r.1 × OneArg r.0 × Q r.1

  abbrev PartReads : (List (Token Float) → Type 0) → ℕ → Parser f_nil (Expr Float) → Type 0
  PartReads Q n p = (ts : List (Token Float)) → length ts < n → Ended ts → Gives (Part Q ts) (p ts)

  -- `Q`, and another token than `op` is next.
  abbrev Stops : (List (Token Float) → Type 0) → Tok → List (Token Float) → Type 0
  Stops Q op ts = Q ts × (at f_nil op ts ≡ false)

  module _ (Q : List (Token Float) → Type 0) (n : ℕ) (op : Tok)
      (build : Expr Float → Expr Float → Expr Float) (sub : Parser f_nil (Expr Float))
      (reads : PartReads Q n sub) (expr : Parser f_nil (Expr Float))
      (other : tok_code op ≢ tok_code eof)
      (built : (a b : Expr Float) → OneArg a → OneArg b → OneArg (build a b)) where
    loop-Gives :
        (f : ℕ) (l : Expr Float) (ts : List (Token Float))
        → length ts < f
        → length ts < n
        → Ended ts
        → OneArg l
        → Q ts
        → Gives
            (λ r. (length r.1 ≤ length ts) × Ended r.1 × OneArg r.0 × Stops Q op r.1)
            (loop f_nil expr f op build sub l ts)
    unfolding loop
    loop-Gives zero l ts h short ended one q = absurd (omega arith)
    loop-Gives (suc f) l ts h short ended one q =
        Gives-if (at f_nil op ts)
          (λ here. Gives-bind (eat-Gives f_nil op ts ended other here) λ (_, us) (a, ea, pa).
            Gives-bind (reads us (omega arith) ea) λ (x, vs) (b, eb, onex, qv).
              Gives-map
                (loop-Gives f (build l x) vs (omega arith) (omega arith) eb (built l x one onex) qv)
                λ (y, ws) (c, ec, oney, stop). (omega arith, ec, oney, stop))
          (λ stop. value (omega arith, ended, one, (q, stop)))

    level-Gives :
        (f : ℕ) (ts : List (Token Float))
        → length ts ≤ f
        → length ts < n
        → Ended ts
        → Gives (Part (Stops Q op) ts) (bind (sub ts) (λ l. loop f_nil expr f op build sub l.0 l.1))
    level-Gives f ts fuel short ended = Gives-bind (reads ts short ended) λ (l, us) (a, ea, one, q).
        Gives-map (loop-Gives f l us (omega arith) (omega arith) ea one q)
          λ (y, ws) (c, ec, oney, stop). (omega arith, ec, oney, stop)

  abbrev OptionOneArg : Option (Expr Float) → Type 0
  OptionOneArg none = Unit
  OptionOneArg (some e) = OneArg e

  simple-OneArg : (t : Tok) → OptionOneArg (simple f_nil t)
  unfolding OneArg
  simple-OneArg under = tt
  simple-OneArg _ = tt

  module _ (expr : Parser f_nil (Expr Float)) (f : ℕ) (reads : Reads f_nil f expr) where
    product-Gives :
        (ts : List (Token Float))
        → length ts < f
        → Ended ts
        → at f_nil lp ts ≡ true
        → Gives (Rest f_nil ts) (
            bind (eat f_nil ts) (λ r.
              bind
                (bracketed f_nil expr r.1)
                (λ x. ok (e_seq (e_par e_wire x.0) (e_binop (codes "*")), x.1))))
    unfolding OneArg
    product-Gives ts short ended here =
        Gives-bind (eat-Gives f_nil lp ts ended (lp_other f_nil) here) λ (_, us) (a, ea, pa).
          Gives-bind (bracketed-Gives f_nil expr f reads us (omega arith) ea)
            λ (x, vs) (b, eb, one). value (omega arith, eb, ((tt, one), tt))

    p_later-Gives :
        (t : Token Float) (ts : List (Token Float))
        → length ts < f
        → Ended ts
        → Gives (Rest f_nil ts) (p_later f_nil expr f t ts)
    unfolding p_later OneArg
    p_later-Gives t ts short ended =
        let (eq, lq) = qualified-Ended f_nil t.text ts ended in
        Gives-if (is_tok t.type num_tok) (λ _. value (omega arith, ended, tt))
          λ _.
            Gives-if (is_tok t.type star)
              (λ _.
                Gives-if (at f_nil lp ts) (product-Gives ts short ended)
                  (λ _. value (omega arith, ended, tt)))
              λ _.
                Gives-if (is_tok t.type lp) (λ _. bracketed-Gives f_nil expr f reads ts short ended)
                  λ _.
                    Gives-if (is_tok t.type id_tok)
                      (λ _.
                        Gives-map
                          (p_name-Gives f_nil expr f reads f (qualified f_nil t.text ts).0
                            (qualified f_nil t.text ts).1 (omega arith) (omega arith) eq)
                          λ (e, us) (l, eu, one). (omega arith, eu, one))
                      (λ _. exception)

    or_later-Gives :
        (o : Option (Expr Float)) (t : Token Float) (ts : List (Token Float))
        → OptionOneArg o
        → length ts < f
        → Ended ts
        → Gives (Rest f_nil ts) (or_later f_nil expr o f t ts)
    or_later-Gives (some e) t ts one short ended = value (omega arith, ended, one)
    or_later-Gives none t ts one short ended = p_later-Gives t ts short ended

    p_atom-Gives : PartReads (λ _. Unit) (suc f) (p_atom f_nil expr f)
    unfolding p_atom p_first
    p_atom-Gives [] short ended = exception
    p_atom-Gives (t ∷ ts) short (last, ended) =
        Gives-map
          (or_later-Gives (simple f_nil t.type) t ts (simple-OneArg t.type) (omega arith) ended)
          λ (e, us) (a, ea, one). (omega arith, ea, one, tt)

    p_par-Gives : PartReads (Stops (λ _. Unit) comma) (suc f) (p_par f_nil expr f)
    unfolding p_par tok_code OneArg
    p_par-Gives ts short ended =
        level-Gives (λ _. Unit) (suc f) comma e_par (p_atom f_nil expr f) p_atom-Gives expr
          (λ e. omega (arith, e)) (λ a b x y. (x, y)) f ts (omega arith) short ended

    abbrev Q1 : List (Token Float) → Type 0
    Q1 = Stops (λ _. Unit) comma

    abbrev Q2 : List (Token Float) → Type 0
    Q2 = Stops Q1 colon

    abbrev Q3 : List (Token Float) → Type 0
    Q3 = Stops Q2 split_op

    abbrev Q4 : List (Token Float) → Type 0
    Q4 = Stops Q3 merge_op

    p_seq-Gives : PartReads Q2 (suc f) (p_seq f_nil expr f)
    unfolding p_seq tok_code OneArg
    p_seq-Gives ts short ended =
        level-Gives Q1 (suc f) colon e_seq (p_par f_nil expr f) p_par-Gives expr
          (λ e. omega (arith, e)) (λ a b x y. (x, y)) f ts (omega arith) short ended

    p_split-Gives : PartReads Q3 (suc f) (p_split f_nil expr f)
    unfolding p_split tok_code OneArg
    p_split-Gives ts short ended =
        level-Gives Q2 (suc f) split_op e_split (p_seq f_nil expr f) p_seq-Gives expr
          (λ e. omega (arith, e)) (λ a b x y. (x, y)) f ts (omega arith) short ended

    p_merge-Gives : PartReads Q4 (suc f) (p_merge f_nil expr f)
    unfolding p_merge tok_code OneArg
    p_merge-Gives ts short ended =
        level-Gives Q3 (suc f) merge_op e_merge (p_split f_nil expr f) p_split-Gives expr
          (λ e. omega (arith, e)) (λ a b x y. (x, y)) f ts (omega arith) short ended

    p_tilde-Gives : PartReads (Stops Q4 tilde) (suc f) (p_tilde f_nil expr f)
    unfolding p_tilde tok_code OneArg
    p_tilde-Gives ts short ended =
        level-Gives Q4 (suc f) tilde e_rec (p_merge f_nil expr f) p_merge-Gives expr
          (λ e. omega (arith, e)) (λ a b x y. (x, y)) f ts (omega arith) short ended

  -- On tokens that end with `Eof`, with as much fuel as there are tokens and one more, `p_expr` throws or
  -- gives an expression: it reads at least one token and none behind the last, and every call in the
  -- expression has at most one argument; it does not stop in front of a comma.
  pub p_expr-Reads : (f : ℕ) → Reads f_nil f (p_expr f_nil f)
  unfolding p_expr
  p_expr-Reads zero ts short ended = absurd (omega arith)
  p_expr-Reads (suc f) ts short ended =
      Gives-map (p_tilde-Gives (p_expr f_nil f) f (p_expr-Reads f) ts short ended)
        λ (e, us) (l, eu, one, stop). (l, eu, one, stop.0.0.0.0.1)
