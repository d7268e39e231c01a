-- ===== src/Dsp/Tokens/Tests.antt =====
-- A run of the tokenizer of src/dsp/dsp.cppm.
use rp4_demo.Base.{ℕ, ◌+◌, ◌≡◌, refl, none, some, length, codes, Option, List}
use rp4_demo.Dsp.Tokens.{
  Token, Numbers, tokenize, span, skip_block, drop_one, operator, number, word, other, lex, rounds,
  string,
}

-- Every number reads as 1.
abbrev ones : Numbers ℕ
ones = record { stof = λ s. some 1; f_nil = 0 }

abbrev kinds : Option (Option (List (Token ℕ))) → ℕ
kinds none = 0
kinds (some none) = 1
kinds (some (some ts)) = 2 + length ts

-- `a`, `+`, `b`, `;` and the end
five_tokens : kinds (tokenize ones (codes "a+b; // c")) ≡ 7
unfolding tokenize rounds lex operator number word other string span skip_block drop_one
five_tokens = refl
