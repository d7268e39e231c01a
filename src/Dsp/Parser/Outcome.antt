-- ===== src/Dsp/Parser/Outcome.antt =====
-- What the parser of src/dsp/dsp.cppm gives where it does not throw, and the steps of one token.
use rp4_demo.Base.{
  ◌<◌, ◌≡◌, ◌≢◌, refl, sym, ◌∙◌, arith, Bool, true, false, List, [], ◌∷◌, if◌then◌else◌, Text,
  length,
}
use rp4_demo.Dsp.Tokens.{Tok, eof, tok_code, is_tok, Token}
use rp4_demo.Dsp.Tokens.Ended.{Ended, is_nil}
use rp4_demo.Dsp.Parser.{Parsed, ok, thrown, bind, cur, at, eat, expect, take_text, take_num}

-- The run ends with an exception or a value of which `P` holds: it does not read behind the last token and
-- does not run out of fuel.
pub data Gives {ℓ κ} {A : Type ℓ} (P : A → Type κ) : Parsed A → Type (ℓ ⊔ κ) where
  value : {a : A} → P a → Gives P (ok a)
  exception : {m : Text} → Gives P (thrown m)

pub Gives-bind {ℓ ℓ' κ κ'} :
    {A : Type ℓ} {B : Type ℓ'} {P : A → Type κ} {Q : B → Type κ'} {r : Parsed A} {k : A → Parsed B}
    → Gives P r
    → ((a : A) → P a → Gives Q (k a))
    → Gives Q (bind r k)
Gives-bind (value {a} h) next = next a h
Gives-bind exception next = exception

pub Gives-map {ℓ κ κ'} :
    {A : Type ℓ} {P : A → Type κ} {Q : A → Type κ'} {r : Parsed A}
    → Gives P r
    → ((a : A) → P a → Q a)
    → Gives Q r
Gives-map (value {a} h) weaker = value (weaker a h)
Gives-map exception weaker = exception

pub Gives-if {ℓ κ} :
    {A : Type ℓ} {P : A → Type κ} (b : Bool) {x y : Parsed A}
    → (b ≡ true → Gives P x)
    → (b ≡ false → Gives P y)
    → Gives P (if b then x else y)
Gives-if true hx hy = hx refl
Gives-if false hx hy = hy refl

filled {ℓ} : {A : Type ℓ} (xs : List A) → is_nil xs ≡ false → 0 < length xs
filled [] h = absurd (cc)
filled (x ∷ xs) h = omega arith

module _ {Float : Type 0} (f_nil : Float) where
  -- One token was read, and there are more.
  abbrev pub Inside {ℓ} : {A : Type ℓ} → List (Token Float) → A × List (Token Float) → Type 0
  Inside ts r = (length r.1 < length ts) × Ended r.1 × (0 < length r.1)

  -- One token was read.
  abbrev pub Behind {ℓ} : {A : Type ℓ} → List (Token Float) → A × List (Token Float) → Type 0
  Behind ts r = (length r.1 < length ts) × Ended r.1

  -- Where a token other than `Eof` stands, there is one behind it.
  pub eat-Gives :
      (t : Tok) (ts : List (Token Float))
      → Ended ts
      → (tok_code t ≢ tok_code eof)
      → at f_nil t ts ≡ true
      → Gives (Inside ts) (eat f_nil ts)
  unfolding eat cur
  eat-Gives t [] ended other here = absurd (other (ground (arith, here)))
  eat-Gives t (u ∷ ts) (last, ended) other here =
      let not_last : is_tok u.type eof ≡ false = ground (arith, here, other) in
      value (omega arith, ended, filled ts (sym last ∙ not_last))

  pub expect-Gives :
      (t : Tok) (ts : List (Token Float))
      → Ended ts
      → (tok_code t ≢ tok_code eof)
      → Gives (Inside ts) (expect f_nil t ts)
  unfolding expect
  expect-Gives t ts ended other =
      Gives-if (at f_nil t ts) (λ here. Gives-bind (eat-Gives t ts ended other here) λ r h. value h)
        (λ _. exception)

  pub take_text-Gives :
      (ts : List (Token Float)) → Ended ts → 0 < length ts → Gives (Behind ts) (take_text f_nil ts)
  unfolding eat
  take_text-Gives [] ended some_left = absurd (omega arith)
  take_text-Gives (t ∷ ts) (last, ended) some_left = value (omega arith, ended)

  pub at_token : (ts : List (Token Float)) → at f_nil eof ts ≡ false → 0 < length ts
  unfolding cur
  at_token [] more = absurd (ground (arith, more))
  at_token (t ∷ ts) more = omega arith

  pub eat_any-Gives :
      (ts : List (Token Float)) → Ended ts → 0 < length ts → Gives (Behind ts) (eat f_nil ts)
  unfolding eat
  eat_any-Gives [] ended some_left = absurd (omega arith)
  eat_any-Gives (t ∷ ts) (last, ended) some_left = value (omega arith, ended)

  pub take_num-Gives :
      (ts : List (Token Float)) → Ended ts → 0 < length ts → Gives (Behind ts) (take_num f_nil ts)
  unfolding eat
  take_num-Gives [] ended some_left = absurd (omega arith)
  take_num-Gives (t ∷ ts) (last, ended) some_left = value (omega arith, ended)
