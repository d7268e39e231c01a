-- ===== src/Dsp/Tokens/Ended.antt =====
-- The tokenizer of src/dsp/dsp.cppm comes to an end, and its tokens end with `Eof`.
use rp4_demo.Base.{
  ℕ, zero, suc, ◌+◌, ◌≤◌, ◌<◌, ◌≡◌, refl, sym, ◌∙◌, subst, arith, Bool, true, false, not, ◌&&◌,
  Option, none, some, List, [], ◌∷◌, ◌++◌, ◌==◌, if◌then◌else◌, Text, length, length-append, All,
  Bool-cases, Option-cases, inl, inr,
}
use rp4_demo.Dsp.Tokens.{
  Tok, eof, tok_code, is_tok, Token, Numbers, span, skip_block, single, operator, number, word,
  string, lex, singles, drop_one, other, or_other, or_operator, pushed, rounds, tokenize,
  starts_with, is_space, is_digit, is_alpha, number_char, name_char,
}

abbrev pub is_nil {ℓ} : {A : Type ℓ} → List A → Bool
is_nil [] = true
is_nil (x ∷ xs) = false

-- `Eof` is the last token and no other.
abbrev pub Ended : {Float : Type 0} → List (Token Float) → Type 0
Ended [] = Unit
Ended (t ∷ ts) = (is_tok t.type eof ≡ is_nil ts) × Ended ts

length-span : (p : ℕ → Bool) (cs : Text) → length (span p cs).1 ≤ length cs
unfolding span
length-span p [] = omega arith
length-span p (c ∷ cs) = elim (Bool-cases (p c)) [
  | inl in_class ↦ rw in_class (omega (arith, length-span p cs))
  | inr other ↦ rw other (omega arith)
]

length-span_first :
    (p : ℕ → Bool) (c : ℕ) (cs : Text) → p c ≡ true → length (span p (c ∷ cs)).1 ≤ length cs
unfolding span
length-span_first p c cs h = rw h (length-span p cs)

length-skip_block : (cs : Text) → length (skip_block cs) ≤ length cs
unfolding skip_block
length-skip_block [] = omega arith
length-skip_block (a ∷ []) = omega arith
length-skip_block (a ∷ b ∷ cs) = elim (Bool-cases (a == b'*' && b == b'/')) [
  | inl closed ↦ rw closed (omega arith)
  | inr open_ ↦ rw open_ (omega (arith, length-skip_block (b ∷ cs)))
]

-- A round that pushes at most one token, not `Eof`, and leaves at most `n` bytes.
abbrev pub Steps : {Float : Type 0} → (n : ℕ) → Option (List (Token Float) × Text) → Type 0
Steps n none = Unit
Steps n (some (us, rest)) =
    (length rest ≤ n) × (length us ≤ 1) × All (λ t. is_tok t.type eof ≡ false) us

-- What holds of both branches holds of a test.
pub if-both {ℓ κ} :
    {A : Type ℓ} (P : A → Type κ) (b : Bool) {x y : A}
    → (b ≡ true → P x)
    → P y
    → P (if b then x else y)
if-both P true hx hy = hx refl
if-both P false hx hy = hy

abbrev NotEof : Option Tok → Type 0
NotEof none = Unit
NotEof (some t) = is_tok t eof ≡ false

single-NotEof :
    (c : ℕ) (table : List (ℕ × Tok))
    → All (λ e. is_tok e.1 eof ≡ false) table
    → NotEof (single c table)
unfolding single
single-NotEof c [] h = tt
single-NotEof c ((d, t) ∷ table) (h, hs) =
    if-both NotEof (c == d) (λ _. h) (single-NotEof c table hs)

singles-NotEof : All (λ e. is_tok e.1 eof ≡ false) singles
unfolding tok_code
singles-NotEof = (
  refl,
  (
    refl,
    (
      refl,
      (
        refl,
        (
          refl,
          (
            refl,
            (
              refl,
              (
                refl,
                (refl, (refl, (refl, (refl, (refl, (refl, (refl, (refl, (refl, (refl, tt)))))))))),
              ),
            ),
          ),
        ),
      ),
    ),
  ),
)

length-drop_one : (cs : Text) → length (drop_one cs) ≤ length cs
unfolding drop_one
length-drop_one [] = omega arith
length-drop_one (c ∷ cs) = omega arith

module _ {Float : Type 0} (nb : Numbers Float) where
  abbrev StepsOption : ℕ → Option (Option (List (Token Float) × Text)) → Type 0
  StepsOption n none = Unit
  StepsOption n (some r) = Steps n r

  operator-Steps : (c : ℕ) (cs : Text) → StepsOption (length cs) (operator nb c cs)
  unfolding operator tok_code
  operator-Steps c cs =
      let n = length cs in
      let same : n ≤ n = omega arith in
      let less = length-drop_one cs in
      if-both (StepsOption n) (c == b'+')
        (λ _.
          if-both (Steps n) (starts_with b'>' cs) (λ _. (less, omega arith, (refl, tt)))
            (same, omega arith, (refl, tt)))
        (if-both (StepsOption n) (c == b':')
          (λ _.
            if-both (Steps n) (starts_with b'>' cs) (λ _. (less, omega arith, (refl, tt)))
              (same, omega arith, (refl, tt)))
          (if-both (StepsOption n) (c == b'<')
            (λ _.
              if-both (Steps n) (starts_with b':' cs) (λ _. (less, omega arith, (refl, tt)))
                (if-both (Steps n) (starts_with b'<' cs) (λ _. (less, omega arith, (refl, tt)))
                  (same, omega arith, tt)))
            (if-both (StepsOption n) (c == b'>')
              (λ _.
                if-both (Steps n) (starts_with b'>' cs) (λ _. (less, omega arith, (refl, tt)))
                  (same, omega arith, tt))
              tt)))

  number-Steps : (c : ℕ) (cs : Text) → is_digit c ≡ true → Steps (length cs) (number nb (c ∷ cs))
  unfolding number tok_code
  number-Steps c cs h = elim (Option-cases (nb.stof (span number_char (c ∷ cs)).0)) [
    | inl bad ↦ rw (Steps, number, bad) tt
    | inr (v, good) ↦
        rw (Steps, number, good)
          (length-span_first number_char c cs (ground (arith, h)), omega arith, (refl, tt))
  ]

  word-Steps : (c : ℕ) (cs : Text) → is_alpha c ≡ true → Steps (length cs) (word nb (c ∷ cs))
  unfolding word tok_code
  word-Steps c cs h =
      (length-span_first name_char c cs (ground (arith, h)), omega arith, (refl, tt))

  string-Steps : (cs : Text) → Steps (length cs) (string nb cs)
  unfolding string tok_code
  string-Steps cs = (
    omega (
      arith,
      length-drop_one (span (λ c. not (c == b'"')) cs).1,
      length-span (λ c. not (c == b'"')) cs,
    ),
    omega arith,
    (refl, tt),
  )

  other-Steps : (c : ℕ) (cs : Text) → Steps (length cs) (other nb c cs)
  unfolding other tok_code
  other-Steps c cs =
      let P = Steps (length cs) in
      if-both P (c == b'/') (λ _. (omega arith, omega arith, (refl, tt)))
        (if-both P (c == b'"') (λ _. string-Steps cs)
          (if-both P (is_digit c) (λ h. number-Steps c cs h)
            (if-both P (is_alpha c) (λ h. word-Steps c cs h) (omega arith, omega arith, tt))))

  or_other-Steps :
      (o : Option (Option (List (Token Float) × Text))) (c : ℕ) (cs : Text)
      → StepsOption (length cs) o
      → Steps (length cs) (or_other nb o c cs)
  or_other-Steps (some r) c cs h = h
  or_other-Steps none c cs h = other-Steps c cs

  or_operator-Steps :
      (o : Option Tok) (c : ℕ) (cs : Text) → NotEof o → Steps (length cs) (or_operator nb o c cs)
  or_operator-Steps (some t) c cs h = (omega arith, omega arith, (h, tt))
  or_operator-Steps none c cs h = or_other-Steps (operator nb c cs) c cs (operator-Steps c cs)

  lex-Steps : (c : ℕ) (cs : Text) → Steps (length cs) (lex nb c cs)
  unfolding lex
  lex-Steps c cs =
      let P = Steps (length cs) in
      if-both P (is_space c) (λ _. (omega arith, omega arith, tt))
        (if-both P (c == b'/' && starts_with b'/' cs)
          (λ _. (length-span (λ d. not (d == 10)) cs, omega arith, tt))
          (if-both P (c == b'/' && starts_with b'*' cs)
            (λ _.
              (omega (arith, length-skip_block (drop_one cs), length-drop_one cs), omega arith, tt))
            (or_operator-Steps (single c singles) c cs (single-NotEof c singles singles-NotEof))))

  append-Ended :
      (us ts : List (Token Float))
      → All (λ t. is_tok t.type eof ≡ false) us
      → Ended ts
      → 0 < length ts
      → Ended (us ++ ts) × (is_nil (us ++ ts) ≡ false)
  append-Ended [] (t ∷ ts) h e l = (e, refl)
  append-Ended [] [] h e l = absurd (omega arith)
  append-Ended (u ∷ us) ts (h, hs) e l =
      let (rest, filled) = append-Ended us ts hs e l in ((h ∙ sym filled, rest), refl)

  -- What comes of the rounds: an exception, or tokens that end with `Eof`, at most one for each byte and
  -- one more.
  abbrev pub Lexed : ℕ → Option (Option (List (Token Float))) → Type 0
  Lexed n none = ⊥
  Lexed n (some none) = Unit
  Lexed n (some (some ts)) = Ended ts × (0 < length ts) × (length ts ≤ n + 1)

  pushed-Lexed :
      (n : ℕ) (us : List (Token Float)) (rest : Text) (r : Option (Option (List (Token Float))))
      → Steps n (some (us, rest))
      → Lexed (length rest) r
      → Lexed (suc n) (pushed nb us r)
  pushed-Lexed n us rest none step h = h
  pushed-Lexed n us rest (some none) step h = tt
  pushed-Lexed n us rest (some (some ts)) (le, few, plain) (ended, filled, short) = (
    (append-Ended us ts plain ended filled).0,
    omega (arith, length-append us ts, filled),
    omega (arith, length-append us ts, le, few, short),
  )

  rounds-Lexed : (f : ℕ) (cs : Text) → length cs < f → Lexed (length cs) (rounds nb f cs)
  unfolding rounds tok_code
  rounds-Lexed zero cs h = absurd (omega arith)
  rounds-Lexed (suc f) [] h = ((refl, tt), omega arith, omega arith)
  rounds-Lexed (suc f) (c ∷ cs) h = elim (Option-cases (lex nb c cs)) [
    | inl bad ↦ rw (Lexed, rounds, bad) tt
    | inr ((us, rest), good) ↦
        let step : Steps (length cs) (some (us, rest)) =
          subst (Steps (length cs)) good (lex-Steps c cs) in
        rw (Lexed, rounds, good)
          (pushed-Lexed (length cs) us rest (rounds nb f rest) step
            (rounds-Lexed f rest (omega (arith, step.0, h))))
  ]

  -- The tokenizer comes to an end on every text. Unless `stof` throws, its tokens are at least one and at
  -- most one for each byte and one more, and `Eof` is the last of them and no other.
  pub tokenize-Lexed : (src : Text) → Lexed (length src) (tokenize nb src)
  unfolding tokenize
  tokenize-Lexed src = rounds-Lexed (length src + 1) src (omega arith)
