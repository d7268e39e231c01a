-- ===== src/Dsp/Program.antt =====
-- `parse` of src/dsp/dsp.cppm, up to the evaluation: the definitions of a program and its `process`.
pub mod Definitions
mod Tests
use rp4_demo.Base.{
  ℕ, zero, suc, ◌+◌, Bool, true, false, not, ◌&&◌, ◌||◌, Option, none, some, List, [], ◌∷◌, ◌++◌,
  if◌then◌else◌, Text, text_eq, codes, length,
}
use rp4_demo.Dsp.Ast.{Expr, e_wire, e_num}
use rp4_demo.Dsp.Tokens.{
  Tok, id_tok, comma, semi, eq_tok, lp, rp, eof, tok_code, is_tok, Token, Numbers, tokenize,
}
use rp4_demo.Dsp.Parser.{
  Parsed, ok, thrown, out_of_fuel, bind, Tokens, Parser, cur, at, eat, expect, take_text,
  skip_statement, p_expr, one_of,
}

module _ (Float : Type 0) where
  pub record FuncDef : Type 0 where
    pub params : List Text
    pub body : Expr Float

  -- The scope of a program: the last definition of a name comes first. `pm` says that the functions of the
  -- physical models are registered.
  pub record Env : Type 0 where
    pub vals : List (Text × Expr Float)
    pub funcs : List (Text × FuncDef)
    pub pm : Bool

  pub record Program : Type 0 where
    pub env : Env
    pub process : Expr Float

abbrev pub known_libraries : List Text
known_libraries = codes "stdfaust.lib" ∷ codes "pm.lib" ∷ codes "physmodels.lib" ∷ []

module _ {Float : Type 0} (f_nil : Float) (constants : List (Text × Expr Float)) where
  -- `if (cur().type == t) eat();`
  pub optional : Tok → Parser f_nil (Unit {0})
  optional t ts = if at f_nil t ts then bind (eat f_nil ts) (λ r. ok (tt, r.1)) else ok (tt, ts)

  -- `while (cur().type == Tok::Comma) { eat(); params.push_back(cur().text); eat(); }`, on fuel.
  pub more_params : ℕ → Parser f_nil (List Text)
  more_params zero ts = out_of_fuel
  more_params (suc f) ts =
      if at f_nil comma ts
      then bind (eat f_nil ts) (λ r.
        bind (take_text f_nil r.1) (λ p. bind (more_params f p.1) (λ ps. ok (p.0 ∷ ps.0, ps.1))))
      else ok ([], ts)

  pub params : ℕ → Parser f_nil (List Text)
  unfolding more_params
  params f ts =
      if at f_nil rp ts
      then ok ([], ts)
      else bind (take_text f_nil ts) (λ p. bind (more_params f p.1) (λ ps. ok (p.0 ∷ ps.0, ps.1)))

  -- `expr ;` and what becomes of the expression.
  pub statement : ℕ → (Expr Float → Program Float) → Parser f_nil (Program Float)
  unfolding optional
  statement n build ts =
      bind (p_expr f_nil n ts) (λ e. bind (optional semi e.1) (λ r. ok (build e.0, r.1)))

  abbrev pub add_func : Text → List Text → Program Float → Expr Float → Program Float
  add_func name ps p body = record p {
    env = record p.env { funcs = (name, record { params = ps; body = body }) ∷ p.env.funcs };
  }

  abbrev pub add_val : Text → Program Float → Expr Float → Program Float
  add_val name p e = record p { env = record p.env { vals = (name, e) ∷ p.env.vals } }

  -- What `register_pm` does to the scope: its constants, and its functions.
  abbrev pub register_pm : Env Float → Env Float
  register_pm env = record env { vals = constants ++ env.vals; pm = true }

  -- `("lib")` behind `import`.
  pub library : Parser f_nil Text
  unfolding optional
  library ts =
      if at f_nil lp ts
      then bind (eat f_nil ts)
          (λ r. bind (take_text f_nil r.1) (λ l. bind (optional rp l.1) (λ s. ok (l.0, s.1))))
      else ok ([], ts)

  pub import_item : Program Float → Parser f_nil (Program Float)
  unfolding library optional
  import_item p ts = bind (library ts) (λ l. bind (optional semi l.1) (λ r.
      ok (if one_of l.0 known_libraries then record p { env = register_pm p.env } else p, r.1)))

  -- A definition, behind its name.
  pub definition : ℕ → Text → Program Float → Parser f_nil (Program Float)
  unfolding params statement
  definition n name p ts =
      if at f_nil lp ts
      then bind (eat f_nil ts) (λ r. bind (params n r.1) (λ ps.
        bind (expect f_nil rp ps.1)
          (λ s. bind (expect f_nil eq_tok s.1) (λ q. statement n (add_func name ps.0 p) q.1))))
      else if at f_nil eq_tok ts
      then bind (eat f_nil ts) (λ r. statement n (add_val name p) r.1)
      else bind (eat f_nil ts) (λ r. ok (p, r.1))

  pub process_item : ℕ → Program Float → Parser f_nil (Program Float)
  unfolding statement
  process_item n p ts =
      bind (expect f_nil eq_tok ts) (λ q. statement n (λ e. record p { process = e }) q.1)

  -- One round of the loop, in front of a token that is not `Eof`.
  pub item : ℕ → Program Float → Parser f_nil (Program Float)
  unfolding optional import_item definition process_item
  item n p ts =
      let name = (cur f_nil ts).text in
      if at f_nil id_tok ts
      then (if text_eq name (codes "declare")
          then bind (optional semi (skip_statement f_nil ts)) (λ r. ok (p, r.1))
          else bind (eat f_nil ts) (λ r.
            if text_eq name (codes "import")
            then import_item p r.1
            else if text_eq name (codes "process")
            then process_item n p r.1
            else definition n name p r.1))
      else bind (eat f_nil ts) (λ r. ok (p, r.1))

  -- The loop, on fuel.
  pub items : ℕ → ℕ → Program Float → Tokens f_nil → Parsed (Program Float)
  unfolding item
  items zero n p ts = out_of_fuel
  items (suc f) n p ts =
      if at f_nil eof ts then ok p else bind (item n p ts) (λ r. items f n r.0 r.1)

  abbrev pub no_program : Program Float
  no_program = record { env = record { vals = []; funcs = []; pm = false }; process = e_wire }

  -- The tokens of the whole text; each expression has as much fuel as there are tokens, and one more.
  pub program : Tokens f_nil → Parsed (Program Float)
  unfolding items
  program ts = items (length ts + 1) (length ts + 1) no_program ts

-- What follows from the tokens; the exception is that of `stof`.
abbrev pub from_tokens :
    {Float : Type 0}
    → Float
    → List (Text × Expr Float)
    → Option (Option (List (Token Float)))
    → Parsed (Program Float)
from_tokens f_nil constants none = out_of_fuel
from_tokens f_nil constants (some none) = thrown (codes "stof")
from_tokens f_nil constants (some (some ts)) = program f_nil constants ts

-- `parse` on a text, up to `return eval(process_expr, env)`.
pub parse_program :
    {Float : Type 0} → Numbers Float → List (Text × Expr Float) → Text → Parsed (Program Float)
unfolding program
parse_program nb constants src = from_tokens nb.f_nil constants (tokenize nb src)
