-- ===== src/Base/Decimal.antt =====
-- Decimal digits: `std::to_string`, and the digit loops of the managers.
use Prim.Native.Nat.{ℕ, zero, suc, ◌+◌, ◌-◌, ◌*◌, ◌/◌, ◌%◌, ◌^◌, ◌<◌}
use mathlib.Core.Bool.{Bool, true, false, ◌&&◌}
use mathlib.Core.List.{◌++◌, [], ◌∷◌}
use mathlib.Core.Path.{◌≡◌, ◌∙◌, ap}
use mathlib.Core.Logic.{inl, inr}
use native.Mathlib.Omega.{arith}
use rp4_demo.Base.Tests.{leb, ◌==◌, if◌then◌else◌, Bool-cases}
use rp4_demo.Base.Texts.{Text}
use rp4_demo.Base.Lists.{All}

abbrev pub is_digit : ℕ → Bool
is_digit c = leb b'0' c && leb c b'9'

-- `for (auto c : s) if (c >= '0' && c <= '9') v = v * 10 + (c - '0');` on an `unsigned`.
unfoldable pub parse_digits : ℕ → Text → ℕ
parse_digits v [] = v
parse_digits v (c ∷ cs) = parse_digits (if is_digit c then (v * 10 + (c - b'0')) % 2 ^ 32 else v) cs

-- `do { *--p = '0' + v % 10; v /= 10; } while (v);` in front of `acc`.
unfoldable pub digits_before : ℕ → ℕ → Text → Text
digits_before zero v acc = acc
digits_before (suc f) v acc =
    let more = digits_before f (v / 10) ((b'0' + v % 10) ∷ acc) in
    if v / 10 == 0 then (b'0' + v % 10) ∷ acc else more

-- A number has at most as many digits as one more than itself.
unfoldable pub to_string : ℕ → Text
unfolding digits_before
to_string v = digits_before (v + 1) v []

parse_digit :
    (v d : ℕ) (cs : Text)
    → d < 10
    → parse_digits v ((b'0' + d) ∷ cs) ≡ parse_digits ((v * 10 + d) % 2 ^ 32) cs
unfolding parse_digits
parse_digit v d cs h =
    let digit : is_digit (b'0' + d) ≡ true = ground arith in
    let same : b'0' + d - b'0' ≡ d = omega arith in rw digit (rw same)

parse_digits-digits_before :
    (f v : ℕ) (acc : Text)
    → v < f
    → v < 2 ^ 32
    → parse_digits 0 (digits_before f v acc) ≡ parse_digits v acc
unfolding digits_before
parse_digits-digits_before zero v acc h k = elim h [ ]
parse_digits-digits_before (suc f) v acc h k = elim (Bool-cases (v / 10 == 0)) [
  | inl last ↦
      rw last
        (parse_digit 0 (v % 10) acc (omega arith) ∙ ap (λ n. parse_digits n acc) (ground arith))
  | inr more ↦ rw more (
      parse_digits-digits_before f (v / 10) ((b'0' + v % 10) ∷ acc) (ground arith) (omega arith)
      ∙ parse_digit (v / 10) (v % 10) acc (omega arith)
      ∙ ap (λ n. parse_digits n acc) (omega arith))
]

-- What is printed is read back.
pub parse_digits-to_string : (v : ℕ) → v < 2 ^ 32 → parse_digits 0 (to_string v) ≡ v
unfolding to_string parse_digits
parse_digits-to_string v h = parse_digits-digits_before (v + 1) v [] (omega arith) h

-- No byte of a text is `c`.
abbrev pub Without : ℕ → Text → Type 0
Without c = All (λ x. (x == c) ≡ false)

Without-digits_before :
    (f v c : ℕ) (acc : Text) → c < b'0' → Without c acc → Without c (digits_before f v acc)
unfolding digits_before
Without-digits_before zero v c acc h k = k
Without-digits_before (suc f) v c acc h k = elim (Bool-cases (v / 10 == 0)) [
  | inl last ↦ rw last (ground arith, k)
  | inr more ↦
      rw more (Without-digits_before f (v / 10) c ((b'0' + v % 10) ∷ acc) h (ground arith, k))
]

-- A number is printed with no byte below '0', such as a space.
pub Without-to_string : (v c : ℕ) → c < b'0' → Without c (to_string v)
unfolding to_string
Without-to_string v c h = Without-digits_before (v + 1) v c [] h tt

pub Without-append : (c : ℕ) (s t : Text) → Without c s → Without c t → Without c (s ++ t)
Without-append c [] t h g = g
Without-append c (x ∷ s) t h g = (h.0, Without-append c s t h.1 g)
