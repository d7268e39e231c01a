-- ===== src/Dsp/Program/Definitions.antt =====
-- Every run of `parse` of src/dsp/dsp.cppm, up to the evaluation, ends, inside the tokens, and what it defines calls with at most
-- one argument.
use rp4_demo.Base.{
  ℕ, zero, suc, ◌+◌, ◌≤◌, ◌<◌, ◌≡◌, ◌≢◌, arith, false, Option, none, some, List, [], ◌∷◌, ◌++◌,
  Text, text_eq, codes, length, All,
}
use rp4_demo.Dsp.Ast.{Expr}
use rp4_demo.Dsp.Tokens.{
  Tok, id_tok, comma, semi, eq_tok, lp, rp, eof, tok_code, Token, Numbers, tokenize,
}
use rp4_demo.Dsp.Tokens.Ended.{Ended, if-both, Lexed, tokenize-Lexed}
use rp4_demo.Dsp.Parser.{at, skip_statement, one_of, cur}
use rp4_demo.Dsp.Parser.Outcome.{
  Gives, value, exception, Gives-bind, Gives-if, Gives-map, eat-Gives, eat_any-Gives, at_token,
  expect-Gives, take_text-Gives,
}
use rp4_demo.Dsp.Parser.Reads.{OneArg, skip_statement-Inside}
use rp4_demo.Dsp.Parser.Arguments.{p_expr-Reads}
use rp4_demo.Dsp.Program.{
  Program, optional, more_params, params, statement, add_func, add_val, known_libraries, library,
  import_item, definition, process_item, item, items, program, parse_program, from_tokens,
}

-- Every call in the program has at most one argument.
abbrev pub OneArgProgram : {Float : Type 0} → Program Float → Type 0
OneArgProgram p =
    All (λ d. OneArg d.1) p.env.vals × All (λ d. OneArg d.1.body) p.env.funcs × OneArg p.process

All-append {ℓ κ} :
    {A : Type ℓ} (P : A → Type κ) (xs ys : List A) → All P xs → All P ys → All P (xs ++ ys)
All-append P [] ys h k = k
All-append P (x ∷ xs) ys (h, hs) k = (h, All-append P xs ys hs k)

module _ {Float : Type 0} (f_nil : Float) (constants : List (Text × Expr Float))
    (plain : All (λ d. OneArg d.1) constants) where
  abbrev Left {ℓ} : {A : Type ℓ} → List (Token Float) → A × List (Token Float) → Type 0
  Left ts r = (length r.1 ≤ length ts) × Ended r.1

  optional-Gives :
      (t : Tok) (ts : List (Token Float))
      → (tok_code t ≢ tok_code eof)
      → Ended ts
      → Gives (Left ts) (optional f_nil constants t ts)
  unfolding optional
  optional-Gives t ts other ended =
      Gives-if (at f_nil t ts)
        (λ here.
          Gives-bind (eat-Gives f_nil t ts ended other here)
            λ (_, us) (a, e, p). value (omega arith, e))
        (λ _. value (omega arith, ended))

  more_params-Gives :
      (f : ℕ) (ts : List (Token Float))
      → length ts < f
      → Ended ts
      → Gives (Left ts) (more_params f_nil constants f ts)
  unfolding more_params tok_code
  more_params-Gives zero ts h ended = absurd (omega arith)
  more_params-Gives (suc f) ts h ended =
      Gives-if (at f_nil comma ts)
        (λ here.
          Gives-bind (eat-Gives f_nil comma ts ended (λ e. omega (arith, e)) here)
            λ (_, us) (a, ea, pa). Gives-bind (take_text-Gives f_nil us ea pa) λ (l, vs) (b, eb).
              Gives-bind (more_params-Gives f vs (omega arith) eb)
                λ (ps, ws) (c, ec). value (omega arith, ec))
        (λ _. value (omega arith, ended))

  params-Gives :
      (f : ℕ) (ts : List (Token Float))
      → length ts < f
      → 0 < length ts
      → Ended ts
      → Gives (Left ts) (params f_nil constants f ts)
  unfolding params
  params-Gives f ts h some_left ended =
      Gives-if (at f_nil rp ts) (λ _. value (omega arith, ended))
        λ _. Gives-bind (take_text-Gives f_nil ts ended some_left) λ (l, us) (a, ea).
          Gives-bind (more_params-Gives f us (omega arith) ea)
            λ (ps, vs) (b, eb). value (omega arith, eb)

  -- What is left is no more than there was, and the program calls with at most one argument.
  abbrev Kept : List (Token Float) → Program Float × List (Token Float) → Type 0
  Kept ts r = (length r.1 ≤ length ts) × Ended r.1 × OneArgProgram r.0

  statement-Gives :
      (n : ℕ) (build : Expr Float → Program Float) (ts : List (Token Float))
      → length ts < n
      → Ended ts
      → ((e : Expr Float) → OneArg e → OneArgProgram (build e))
      → Gives (Kept ts) (statement f_nil constants n build ts)
  unfolding statement tok_code
  statement-Gives n build ts h ended built =
      Gives-bind (p_expr-Reads f_nil n ts h ended) λ (e, us) (a, ea, one, stop).
        Gives-bind (optional-Gives semi us (λ q. omega (arith, q)) ea)
          λ (_, vs) (b, eb). value (omega arith, eb, built e one)

  library-Gives :
      (ts : List (Token Float)) → Ended ts → Gives (Left ts) (library f_nil constants ts)
  unfolding library tok_code
  library-Gives ts ended =
      Gives-if (at f_nil lp ts)
        (λ here.
          Gives-bind (eat-Gives f_nil lp ts ended (λ e. omega (arith, e)) here)
            λ (_, us) (a, ea, pa). Gives-bind (take_text-Gives f_nil us ea pa) λ (l, vs) (b, eb).
              Gives-bind (optional-Gives rp vs (λ e. omega (arith, e)) eb)
                λ (_, ws) (c, ec). value (omega arith, ec))
        (λ _. value (omega arith, ended))

  import_item-Gives :
      (p : Program Float) (ts : List (Token Float))
      → Ended ts
      → OneArgProgram p
      → Gives (Kept ts) (import_item f_nil constants p ts)
  unfolding import_item tok_code
  import_item-Gives p ts ended (vals, funcs, process) =
      Gives-bind (library-Gives ts ended) λ (l, us) (a, ea).
        Gives-bind (optional-Gives semi us (λ e. omega (arith, e)) ea) λ (_, vs) (b, eb). value (
          omega arith,
          eb,
          if-both OneArgProgram (one_of l known_libraries)
              (λ _. (All-append _ constants p.env.vals plain vals, funcs, process))
              (vals, funcs, process),
        )

  definition-Gives :
      (n : ℕ) (name : Text) (p : Program Float) (ts : List (Token Float))
      → length ts < n
      → 0 < length ts
      → Ended ts
      → OneArgProgram p
      → Gives (Kept ts) (definition f_nil constants n name p ts)
  unfolding definition tok_code
  definition-Gives n name p ts h some_left ended (vals, funcs, process) =
      Gives-if (at f_nil lp ts)
        (λ here.
          Gives-bind (eat-Gives f_nil lp ts ended (λ e. omega (arith, e)) here)
            λ (_, t1) (a, e1, p1).
              Gives-bind (params-Gives n t1 (omega arith) p1 e1) λ (ps, t2) (b, e2).
                Gives-bind (expect-Gives f_nil rp t2 e2 (λ e. omega (arith, e)))
                  λ (_, t3) (c, e3, p3).
                    Gives-bind (expect-Gives f_nil eq_tok t3 e3 (λ e. omega (arith, e)))
                      λ (_, t4) (d, e4, p4).
                        Gives-map
                          (statement-Gives n (add_func f_nil constants name ps p) t4 (omega arith)
                            e4 (λ e one. (vals, (one, funcs), process)))
                          λ (q, us) (l, eu, good). (omega arith, eu, good))
        λ _.
          Gives-if (at f_nil eq_tok ts)
            (λ here.
              Gives-bind (eat-Gives f_nil eq_tok ts ended (λ e. omega (arith, e)) here)
                λ (_, t1) (a, e1, p1).
                  Gives-map
                    (statement-Gives n (add_val f_nil constants name p) t1 (omega arith) e1
                      (λ e one. ((one, vals), funcs, process)))
                    λ (q, us) (l, eu, good). (omega arith, eu, good))
            (λ _.
              Gives-bind (eat_any-Gives f_nil ts ended some_left)
                λ (_, us) (a, ea). value (omega arith, ea, (vals, funcs, process)))

  process_item-Gives :
      (n : ℕ) (p : Program Float) (ts : List (Token Float))
      → length ts < n
      → Ended ts
      → OneArgProgram p
      → Gives (Kept ts) (process_item f_nil constants n p ts)
  unfolding process_item tok_code
  process_item-Gives n p ts h ended (vals, funcs, process) =
      Gives-bind (expect-Gives f_nil eq_tok ts ended (λ e. omega (arith, e))) λ (_, t1) (a, e1, p1).
        Gives-map
          (statement-Gives n (λ e. record p { process = e }) t1 (omega arith) e1
            (λ e one. (vals, funcs, one)))
          λ (q, us) (l, eu, good). (omega arith, eu, good)

  -- A round in front of a token reads at least that.
  item-Gives :
      (n : ℕ) (p : Program Float) (ts : List (Token Float))
      → length ts < n
      → Ended ts
      → at f_nil eof ts ≡ false
      → OneArgProgram p
      → Gives
          (λ r. (length r.1 < length ts) × Ended r.1 × OneArgProgram r.0)
          (item f_nil constants n p ts)
  unfolding item tok_code
  item-Gives n p ts h ended more good =
      let some_left : 0 < length ts = at_token f_nil ts more in
      Gives-if (at f_nil id_tok ts)
        (λ here.
          Gives-if (text_eq (cur f_nil ts).text (codes "declare"))
            (λ _.
              let (e, l) = skip_statement-Inside f_nil ts ended here in
              Gives-bind (optional-Gives semi (skip_statement f_nil ts) (λ q. omega (arith, q)) e)
                λ (_, us) (a, ea). value (omega arith, ea, good))
            λ _.
              Gives-bind (eat-Gives f_nil id_tok ts ended (λ e. omega (arith, e)) here)
                λ (_, us) (a, ea, pa).
                  Gives-map
                    (Gives-if (text_eq (cur f_nil ts).text (codes "import"))
                      (λ _. import_item-Gives p us ea good)
                      λ _.
                        Gives-if (text_eq (cur f_nil ts).text (codes "process"))
                          (λ _. process_item-Gives n p us (omega arith) ea good)
                          (λ _.
                            definition-Gives n (cur f_nil ts).text p us (omega arith) pa ea good))
                    λ (q, vs) (l, ev, one). (omega arith, ev, one))
        λ _.
          Gives-bind (eat_any-Gives f_nil ts ended some_left)
            λ (_, us) (a, ea). value (omega arith, ea, good)

  items-Gives :
      (f n : ℕ) (p : Program Float) (ts : List (Token Float))
      → length ts < f
      → length ts < n
      → Ended ts
      → OneArgProgram p
      → Gives OneArgProgram (items f_nil constants f n p ts)
  unfolding items
  items-Gives zero n p ts h k ended good = absurd (omega arith)
  items-Gives (suc f) n p ts h k ended good =
      Gives-if (at f_nil eof ts) (λ _. value good)
        λ more.
          Gives-bind (item-Gives n p ts k ended more good)
            λ (q, us) (l, e, one). items-Gives f n q us (omega arith) (omega arith) e one

  program-Gives :
      (ts : List (Token Float)) → Ended ts → Gives OneArgProgram (program f_nil constants ts)
  unfolding program OneArg
  program-Gives ts ended =
      items-Gives (length ts + 1) (length ts + 1) _ ts (omega arith) (omega arith) ended
        (tt, tt, tt)

from_tokens-Gives :
    {Float : Type 0} (nb : Numbers Float) (constants : List (Text × Expr Float)) (n : ℕ)
    (r : Option (Option (List (Token Float))))
    → All (λ d. OneArg d.1) constants
    → Lexed nb n r
    → Gives OneArgProgram (from_tokens nb.f_nil constants r)
from_tokens-Gives nb constants n none plain lexed = absurd lexed
from_tokens-Gives nb constants n (some none) plain lexed = exception
from_tokens-Gives nb constants n (some (some ts)) plain (ended, filled, short) =
    program-Gives nb.f_nil constants plain ts ended

-- Where no constant calls with more than one argument: what `parse` does before it evaluates `process` ends
-- on every text, with an exception or a program, and reads nothing behind the last token; in the program
-- every call has at most one argument, however many the text writes between the brackets.
pub parse_program-Gives :
    {Float : Type 0} (nb : Numbers Float) (constants : List (Text × Expr Float)) (src : Text)
    → All (λ d. OneArg d.1) constants
    → Gives OneArgProgram (parse_program nb constants src)
unfolding parse_program
parse_program-Gives nb constants src plain =
    from_tokens-Gives nb constants (length src) (tokenize nb src) plain (tokenize-Lexed nb src)
