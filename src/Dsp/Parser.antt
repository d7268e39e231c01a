-- ===== src/Dsp/Parser.antt =====
-- The parser of src/dsp/dsp.cppm: recursive descent on the tokens that are left. An exception is a value;
-- so are a read behind the last token and the end of the fuel, which the program does not have.
pub mod Outcome
pub mod Reads
pub mod Arguments
use rp4_demo.Base.{
  ℕ, zero, suc, Bool, true, false, not, ◌&&◌, ◌||◌, Option, none, some, List, [], ◌∷◌, ◌++◌,
  if◌then◌else◌, Text, text_eq, codes, to_string,
}
use rp4_demo.Dsp.Ast.{
  Expr, Exprs, null_expr, e_num, e_wire, e_cut, e_select2, e_mem, e_delay, e_binop, e_unary,
  e_ident, e_slider, e_button, e_checkbox, e_nentry, e_seq, e_par, e_split, e_merge, e_rec, e_call,
  e_group, no_exprs, more_exprs,
}
use rp4_demo.Dsp.Tokens.{
  Tok, num_tok, id_tok, colon, comma, semi, lp, rp, split_op, merge_op, tilde, under, bang, at_tok,
  plus, minus, star, slash, percent, caret, amp, pipe, lshift, rshift, dot, eof, tok_code, is_tok,
  Token,
}

pub data Parsed {ℓ} (A : Type ℓ) : Type ℓ where
  ok : A → Parsed A
  -- `throw std::runtime_error(...)`
  thrown : Text → Parsed A
  past_end : Parsed A
  out_of_fuel : Parsed A

abbrev pub bind {ℓ κ} : {A : Type ℓ} {B : Type κ} → Parsed A → (A → Parsed B) → Parsed B
bind (ok a) k = k a
bind (thrown m) k = thrown m
bind past_end k = past_end
bind out_of_fuel k = out_of_fuel

-- Is the name one of these?
pub one_of : Text → List Text → Bool
one_of name [] = false
one_of name (n ∷ ns) = text_eq name n || one_of name ns

abbrev pub uops : List Text
uops =
    codes "sin"
    ∷ codes "cos"
    ∷ codes "tan"
    ∷ codes "asin"
    ∷ codes "acos"
    ∷ codes "atan"
    ∷ codes "sqrt"
    ∷ codes "exp"
    ∷ codes "log"
    ∷ codes "log10"
    ∷ codes "abs"
    ∷ codes "floor"
    ∷ codes "ceil"
    ∷ codes "rint"
    ∷ codes "int"
    ∷ codes "float"
    ∷ codes "neg"
    ∷ []

abbrev pub named_binops : List Text
named_binops = codes "min" ∷ codes "max" ∷ codes "atan2" ∷ codes "remainder" ∷ codes "xor" ∷ []

module _ {Float : Type 0} (f_nil : Float) where
  abbrev pub Tokens : Type 0
  Tokens = List (Token Float)

  -- A parser reads an `A` and leaves the tokens behind it.
  abbrev pub Parser {ℓ} : Type ℓ → Type ℓ
  Parser A = Tokens → Parsed (A × Tokens)

  -- `toks[std::min(pos, toks.size()-1)]`: behind the end it is the last token, `Eof`.
  pub cur : Tokens → Token Float
  cur [] = record { type = eof; text = []; num = f_nil }
  cur (t ∷ ts) = t

  abbrev pub at : Tok → Tokens → Bool
  at t ts = is_tok (cur ts).type t

  -- `toks[pos++]`
  pub eat : Parser (Token Float)
  eat [] = past_end
  eat (t ∷ ts) = ok (t, ts)

  pub expect : Tok → Parser (Unit {0})
  unfolding eat cur
  expect t ts =
      if at t ts
      then bind (eat ts) (λ r. ok (tt, r.1))
      else thrown
          (codes "expected " ++ (to_string (tok_code t) ++ (codes " got " ++ (cur ts).text)))

  -- `auto label = cur().text; eat();` and the same of `num`.
  abbrev pub take_text : Parser Text
  take_text ts = bind (eat ts) (λ r. ok ((cur ts).text, r.1))

  abbrev pub take_num : Parser Float
  take_num ts = bind (eat ts) (λ r. ok ((cur ts).num, r.1))

  infixl 1 ◌>>=◌ ◌>>◌
  abbrev ◌>>=◌ {ℓ κ} : {A : Type ℓ} {B : Type κ} → Parser A → (A → Parser B) → Parser B
  p >>= k = λ ts. bind (p ts) (λ r. k r.0 r.1)

  abbrev ◌>>◌ {ℓ κ} : {A : Type ℓ} {B : Type κ} → Parser A → Parser B → Parser B
  p >> q = p >>= (λ _. q)

  abbrev pub pure {ℓ} : {A : Type ℓ} → A → Parser A
  pure a ts = ok (a, ts)

  -- `("label", init, lo, hi, step)`
  pub four_numbers : (Text → Float → Float → Float → Float → Expr Float) → Parser (Expr Float)
  unfolding expect eat cur
  four_numbers build = do
    expect lp
    label ← take_text
    expect comma
    init ← take_num
    expect comma
    lo ← take_num
    expect comma
    hi ← take_num
    expect comma
    step ← take_num
    expect rp
    pure (build label init lo hi step)

  -- `("label")`
  pub one_label : (Text → Expr Float) → Parser (Expr Float)
  unfolding expect eat cur
  one_label build = do expect lp; label ← take_text; expect rp; pure (build label)

  -- `while (cur().type != Tok::Semi && cur().type != Tok::Eof) eat();`
  pub skip_statement : Tokens → Tokens
  skip_statement [] = []
  skip_statement (t ∷ ts) =
      let rest = skip_statement ts in
      if is_tok t.type semi || is_tok t.type eof then t ∷ ts else rest

  -- A qualified name, `a.b.c`.
  pub qualified : Text → Tokens → Text × Tokens
  qualified name [] = (name, [])
  qualified name (t ∷ []) = (name, t ∷ [])
  qualified name (t ∷ u ∷ ts) =
      let more = qualified (name ++ (b'.' ∷ u.text)) ts in
      if is_tok t.type dot && is_tok u.type id_tok then more else (name, t ∷ u ∷ ts)

  -- The atoms of one token.
  abbrev pub simple : Tok → Option (Expr Float)
  simple under = some e_wire
  simple bang = some e_cut
  simple plus = some (e_binop (codes "+"))
  simple minus = some (e_binop (codes "-"))
  simple slash = some (e_binop (codes "/"))
  simple percent = some (e_binop (codes "%"))
  simple caret = some (e_binop (codes "^"))
  simple amp = some (e_binop (codes "&"))
  simple pipe = some (e_binop (codes "|"))
  simple lshift = some (e_binop (codes "<<"))
  simple rshift = some (e_binop (codes ">>"))
  simple at_tok = some e_delay
  simple _ = none

  module _ (expr : Parser (Expr Float)) where
    -- `while (cur().type == op) { eat(); l = build(l, sub()); }`, on fuel.
    pub loop :
        ℕ
        → Tok
        → (Expr Float → Expr Float → Expr Float)
        → Parser (Expr Float)
        → Expr Float
        → Parser (Expr Float)
    unfolding eat cur
    loop zero op build sub l ts = out_of_fuel
    loop (suc f) op build sub l ts =
        if at op ts
        then bind (eat ts) (λ r. bind (sub r.1) (λ s. loop f op build sub (build l s.0) s.1))
        else ok (l, ts)

    -- `while (cur().type == Tok::Comma) { eat(); args.push_back(p_arg()); }`, on fuel.
    pub more_args : ℕ → Parser (Exprs Float)
    unfolding eat cur
    more_args zero ts = out_of_fuel
    more_args (suc f) ts =
        if at comma ts
        then bind (eat ts) (λ r.
          bind (expr r.1) (λ a. bind (more_args f a.1) (λ as_. ok (more_exprs a.0 as_.0, as_.1))))
        else ok (no_exprs, ts)

    pub p_args : ℕ → Parser (Exprs Float)
    unfolding more_args
    p_args f ts =
        if at rp ts
        then ok (no_exprs, ts)
        else bind (expr ts) (λ a. bind (more_args f a.1) (λ as_. ok (more_exprs a.0 as_.0, as_.1)))

    -- `("label", body)`
    pub group : Text → Parser (Expr Float)
    unfolding expect eat cur
    group name = do
      expect lp
      label ← take_text
      expect comma
      body ← expr
      expect rp
      pure (e_group name label body)

    -- `name(args)`, behind the opening bracket.
    pub call : ℕ → Text → Parser (Expr Float)
    unfolding expect p_args
    call f name = do args ← p_args f; expect rp; pure (e_call name args)

    -- `p_atom` behind an identifier.
    pub p_name : ℕ → Text → Parser (Expr Float)
    unfolding one_of four_numbers one_label skip_statement group call eat cur
    p_name f name ts =
        if one_of name uops
        then ok (e_unary name, ts)
        else if text_eq name (codes "mem")
        then ok (e_mem, ts)
        else if text_eq name (codes "select2")
        then ok (e_select2, ts)
        else if one_of name named_binops
        then ok (e_binop name, ts)
        else if one_of name (codes "hslider" ∷ codes "vslider" ∷ [])
        then four_numbers (e_slider name) ts
        else if text_eq name (codes "button")
        then one_label e_button ts
        else if text_eq name (codes "checkbox")
        then one_label e_checkbox ts
        else if text_eq name (codes "nentry")
        then four_numbers e_nentry ts
        else if one_of name (codes "hgroup" ∷ codes "vgroup" ∷ codes "tgroup" ∷ [])
        then group name ts
        else if one_of name (codes "declare" ∷ codes "import" ∷ [])
        then ok (null_expr, skip_statement ts)
        else if at lp ts
        then bind (eat ts) (λ r. call f name r.1)
        else ok (e_ident name, ts)

    -- `p_expr()` and the bracket behind it.
    pub bracketed : Parser (Expr Float)
    unfolding expect
    bracketed = do x ← expr; expect rp; pure x

    -- `p_atom` behind its first token, where that is not an atom by itself.
    pub p_later : ℕ → Token Float → Parser (Expr Float)
    unfolding bracketed qualified p_name eat cur
    p_later f t ts =
        if is_tok t.type num_tok
        then ok (e_num t.num, ts)
        else if is_tok t.type star
        then (if at lp ts
            then bind (eat ts) (λ r.
              bind (bracketed r.1) (λ x. ok (e_seq (e_par e_wire x.0) (e_binop (codes "*")), x.1)))
            else ok (e_binop (codes "*"), ts))
        else if is_tok t.type lp
        then bracketed ts
        else if is_tok t.type id_tok
        then p_name f (qualified t.text ts).0 (qualified t.text ts).1
        else thrown (codes "unexpected: " ++ t.text)

    abbrev pub or_later : Option (Expr Float) → ℕ → Token Float → Parser (Expr Float)
    or_later (some e) f t ts = ok (e, ts)
    or_later none f t ts = p_later f t ts

    pub p_first : ℕ → Token Float → Parser (Expr Float)
    unfolding p_later
    p_first f t ts = or_later (simple t.type) f t ts

    -- Every case of the switch but the last eats the token first.
    pub p_atom : ℕ → Parser (Expr Float)
    unfolding p_first eat
    p_atom f [] = thrown (codes "unexpected: ")
    p_atom f (t ∷ ts) = p_first f t ts

    pub p_par : ℕ → Parser (Expr Float)
    unfolding loop p_atom
    p_par f ts = bind (p_atom f ts) (λ l. loop f comma e_par (p_atom f) l.0 l.1)

    pub p_seq : ℕ → Parser (Expr Float)
    unfolding loop p_par
    p_seq f ts = bind (p_par f ts) (λ l. loop f colon e_seq (p_par f) l.0 l.1)

    pub p_split : ℕ → Parser (Expr Float)
    unfolding loop p_seq
    p_split f ts = bind (p_seq f ts) (λ l. loop f split_op e_split (p_seq f) l.0 l.1)

    pub p_merge : ℕ → Parser (Expr Float)
    unfolding loop p_split
    p_merge f ts = bind (p_split f ts) (λ l. loop f merge_op e_merge (p_split f) l.0 l.1)

    pub p_tilde : ℕ → Parser (Expr Float)
    unfolding loop p_merge
    p_tilde f ts = bind (p_merge f ts) (λ l. loop f tilde e_rec (p_merge f) l.0 l.1)

  -- `p_expr` and `p_arg`; the fuel bounds the nesting of brackets and the rounds of each loop.
  pub p_expr : ℕ → Parser (Expr Float)
  unfolding p_tilde
  p_expr zero ts = out_of_fuel
  p_expr (suc f) ts = p_tilde (p_expr f) f ts
