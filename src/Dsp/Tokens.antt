-- ===== src/Dsp/Tokens.antt =====
-- The tokens of src/dsp/dsp.cppm and its tokenizer.
pub mod Ended
mod Tests
use rp4_demo.Base.{
  ℕ, zero, suc, ◌+◌, Bool, true, false, not, ◌&&◌, ◌||◌, Option, none, some, List, [], ◌∷◌, ◌++◌,
  leb, ◌==◌, if◌then◌else◌, Text, codes, length,
}

pub data Tok : Type 0 where
  num_tok id_tok str_tok : Tok
  colon comma semi eq_tok lp rp lb rb : Tok
  split_op merge_op tilde under bang at_tok : Tok
  plus minus star slash percent caret : Tok
  amp pipe lshift rshift dot eof : Tok

-- The value of the enumerator, which is also how two are compared.
unfoldable pub tok_code : Tok → ℕ
tok_code num_tok = 0
tok_code id_tok = 1
tok_code str_tok = 2
tok_code colon = 3
tok_code comma = 4
tok_code semi = 5
tok_code eq_tok = 6
tok_code lp = 7
tok_code rp = 8
tok_code lb = 9
tok_code rb = 10
tok_code split_op = 11
tok_code merge_op = 12
tok_code tilde = 13
tok_code under = 14
tok_code bang = 15
tok_code at_tok = 16
tok_code plus = 17
tok_code minus = 18
tok_code star = 19
tok_code slash = 20
tok_code percent = 21
tok_code caret = 22
tok_code amp = 23
tok_code pipe = 24
tok_code lshift = 25
tok_code rshift = 26
tok_code dot = 27
tok_code eof = 28

abbrev pub is_tok : Tok → Tok → Bool
is_tok a b = tok_code a == tok_code b

abbrev pub between : ℕ → ℕ → ℕ → Bool
between lo hi c = leb lo c && leb c hi

-- The classes of <cctype> in the C locale.
abbrev pub is_space : ℕ → Bool
is_space c = between 9 13 c || c == 32

abbrev pub is_digit : ℕ → Bool
is_digit c = between b'0' b'9' c

abbrev pub is_alpha : ℕ → Bool
is_alpha c = between b'A' b'Z' c || between b'a' b'z' c

abbrev pub number_char : ℕ → Bool
number_char c = is_digit c || (c == b'.' || (c == b'e' || c == b'E'))

abbrev pub name_char : ℕ → Bool
name_char c = is_alpha c || (is_digit c || (c == b'_' || c == b'\''))

abbrev pub starts_with : ℕ → Text → Bool
starts_with c [] = false
starts_with c (d ∷ ds) = d == c

-- The longest prefix of bytes of a class, and what follows.
pub span : (ℕ → Bool) → Text → Text × Text
span p [] = ([], [])
span p (c ∷ cs) = let rest = span p cs in if p c then (c ∷ rest.0, rest.1) else ([], c ∷ cs)

-- `while (i+1 < size && !(src[i]=='*' && src[i+1]=='/')) adv(); if (i+1 < size) i += 2;`: a comment that
-- is not closed leaves its last byte to be read.
pub skip_block : Text → Text
skip_block [] = []
skip_block (a ∷ []) = a ∷ []
skip_block (a ∷ b ∷ cs) =
    let rest = skip_block (b ∷ cs) in if a == b'*' && b == b'/' then cs else rest

-- The bytes that are a token by themselves.
abbrev pub singles : List (ℕ × Tok)
singles =
    (b'(', lp)
    ∷ (b')', rp)
    ∷ (b'{', lb)
    ∷ (b'}', rb)
    ∷ (b';', semi)
    ∷ (b'=', eq_tok)
    ∷ (b',', comma)
    ∷ (b'~', tilde)
    ∷ (b'_', under)
    ∷ (b'!', bang)
    ∷ (b'@', at_tok)
    ∷ (b'-', minus)
    ∷ (b'*', star)
    ∷ (b'%', percent)
    ∷ (b'^', caret)
    ∷ (b'&', amp)
    ∷ (b'|', pipe)
    ∷ (b'.', dot)
    ∷ []

pub single : ℕ → List (ℕ × Tok) → Option Tok
single c [] = none
single c ((d, t) ∷ table) = if c == d then some t else single c table

pub drop_one : Text → Text
drop_one [] = []
drop_one (d ∷ ds) = ds

module _ (Float : Type 0) where
  pub record Token : Type 0 where
    pub type : Tok
    pub text : Text
    pub num : Float

  -- `std::stof` of a text, where it does not throw, and `0.f`.
  pub record Numbers : Type 0 where
    pub stof : Text → Option Float
    pub f_nil : Float

module _ {Float : Type 0} (nb : Numbers Float) where
  open nb use {stof, f_nil}

  abbrev pub token : Tok → Text → Token Float
  token t s = record { type = t; text = s; num = f_nil }

  -- What one round of the loop leaves: the tokens that it pushes, none or one, and the rest of the text.
  -- `none` is an exception of `stof`.
  abbrev pub Round : Type 0
  Round = Option (List (Token Float) × Text)

  abbrev pub one : Tok → Text → Round
  one t rest = some (token t [] ∷ [], rest)

  abbrev pub skip : Text → Round
  skip rest = some ([], rest)

  -- `+`, `:`, `<` and `>`, with a look at the next byte.
  pub operator : ℕ → Text → Option Round
  unfolding drop_one
  operator c cs =
      if c == b'+'
      then some (
          if starts_with b'>' cs
          then some (token merge_op (codes "+>") ∷ [], drop_one cs)
          else one plus cs)
      else if c == b':'
      then some (
          if starts_with b'>' cs
          then some (token merge_op (codes ":>") ∷ [], drop_one cs)
          else one colon cs)
      else if c == b'<'
      then some (
          if starts_with b':' cs
          then one split_op (drop_one cs)
          else if starts_with b'<' cs
          then one lshift (drop_one cs)
          else skip cs)
      else if c == b'>'
      then some (if starts_with b'>' cs then one rshift (drop_one cs) else skip cs)
      else none

  pub number : Text → Round
  unfolding span
  number cs =
      let (ns, rest) = span number_char cs in
      elim (stof ns) [
        | none ↦ none
        | some v ↦ some (record { type = num_tok; text = ns; num = v } ∷ [], rest)
      ]

  pub word : Text → Round
  unfolding span
  word cs = let (s, rest) = span name_char cs in some (token id_tok s ∷ [], rest)

  -- A string ends at the next quote, or at the end of the text.
  pub string : Text → Round
  unfolding span drop_one
  string cs =
      let (s, rest) = span (λ c. not (c == b'"')) cs in some (token str_tok s ∷ [], drop_one rest)

  -- The tests behind those of the operators.
  pub other : ℕ → Text → Round
  unfolding number word string
  other c cs =
      if c == b'/'
      then one slash cs
      else if c == b'"'
      then string cs
      else if is_digit c
      then number (c ∷ cs)
      else if is_alpha c
      then word (c ∷ cs)
      else skip cs

  -- What follows from the tests of the single bytes and of the operators.
  abbrev pub or_other : Option Round → ℕ → Text → Round
  or_other (some r) c cs = r
  or_other none c cs = other c cs

  abbrev pub or_operator : Option Tok → ℕ → Text → Round
  or_operator (some t) c cs = one t cs
  or_operator none c cs = or_other (operator c cs) c cs

  -- One round of the loop, on a text that is not empty.
  pub lex : ℕ → Text → Round
  unfolding span skip_block single drop_one operator other
  lex c cs =
      if is_space c
      then skip cs
      else if c == b'/' && starts_with b'/' cs
      then skip (span (λ d. not (d == 10)) cs).1
      else if c == b'/' && starts_with b'*' cs
      then skip (skip_block (drop_one cs))
      else or_operator (single c singles) c cs

  -- `push_back` of what a round gives, before what the later rounds give.
  abbrev pub pushed :
      List (Token Float)
      → Option (Option (List (Token Float)))
      → Option (Option (List (Token Float)))
  pushed us none = none
  pushed us (some none) = some none
  pushed us (some (some ts)) = some (some (us ++ ts))

  -- The loop, on fuel. The outer `none` is the end of the fuel.
  pub rounds : ℕ → Text → Option (Option (List (Token Float)))
  unfolding lex
  rounds zero cs = none
  rounds (suc f) [] = some (some (token eof [] ∷ []))
  rounds (suc f) (c ∷ cs) = elim (lex c cs) [
    | none ↦ some none
    | some (ts, rest) ↦ pushed ts (rounds f rest)
  ]

  pub tokenize : Text → Option (Option (List (Token Float)))
  unfolding rounds
  tokenize src = rounds (length src + 1) src
