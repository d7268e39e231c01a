-- ===== src/Shim/Print/Pieces.antt =====
-- The formats of `vfprintf` in src/shim/libc_shim.c as lists of pieces, and what each piece shows.
use rp4_demo.Base.{
  ℕ, ◌-◌, ◌^◌, ◌≤◌, ◌<◌, ◌≡◌, refl, ap, sym, arith, Bool-cases, inl, inr, ◌⊎◌, Option, none, some,
  List, [], ◌∷◌, ◌++◌, Text, codes, length, length-append, ap₂, ◌%◌,
}
use rp4_demo.Shim.Digits.{
  decimal, hexadecimal, Digits, decimal-Digits, hexadecimal-Digits, decimal_value, hex_value,
  number_of,
}
use rp4_demo.Shim.Print.{
  Arg, string, int, pointer, uart_puts, put, negative, Label, text_label, signed_label,
  unsigned_label, hex_label, pointer_label, char_label, percent_label, default_label, convert,
}

-- A sign and digits of which there are at most `m` and that read back as `v`.
abbrev pub IsNumber : ℕ → (ℕ → ℕ) → Text → ℕ → ℕ → Text → Type 0
IsNumber base value sign v m shown =
    (ds : Text) × (shown ≡ sign ++ ds)
    × (number_of base value 0 ds ≡ v)
    × (0 < length ds)
    × (length ds ≤ m)

-- The arguments are those of the conversion, and in the range of their types.
pub data Matches : Label → List Arg → Type 0 where
  is_null : Matches text_label (string none ∷ [])
  is_text : (s : Text) → Matches text_label (string (some s) ∷ [])
  is_signed : (n : ℕ) → n < 2 ^ 32 → Matches signed_label (int n ∷ [])
  is_unsigned : (n : ℕ) → n < 2 ^ 32 → Matches unsigned_label (int n ∷ [])
  is_hex : (a n : ℕ) → 58 ≤ a → n < 2 ^ 32 → Matches (hex_label a) (int n ∷ [])
  is_pointer : (n : ℕ) → n < 2 ^ 64 → Matches pointer_label (pointer n ∷ [])
  is_char : (n : ℕ) → Matches char_label (int n ∷ [])
  is_percent : Matches percent_label []
  is_default : Matches default_label []

-- What a conversion with such arguments shows.
pub Shown : Label → ℕ → List Arg → Text → Type 0
Shown text_label c (string none ∷ []) t = t ≡ codes "(null)"
Shown text_label c (string (some s) ∷ []) t = t ≡ s
Shown signed_label c (int n ∷ []) t =
    ((n < 2 ^ 31) × IsNumber 10 decimal_value [] n 20 t)
    ⊎ ((2 ^ 31 ≤ n) × IsNumber 10 decimal_value (codes "-") (2 ^ 32 - n) 20 t)
Shown unsigned_label c (int n ∷ []) t = IsNumber 10 decimal_value [] n 20 t
Shown (hex_label a) c (int n ∷ []) t = IsNumber 16 (hex_value a) [] n 16 t
Shown pointer_label c (pointer n ∷ []) t = IsNumber 16 (hex_value b'a') (codes "0x") n 16 t
Shown char_label c (int n ∷ []) t = t ≡ n % 2 ^ 8 ∷ []
Shown percent_label c [] t = t ≡ codes "%"
Shown default_label c [] t = t ≡ b'%' ∷ c ∷ []
Shown _ c args t = ⊥

-- A line end gets a carriage return, but not in single characters.
abbrev pub sent : Label → Text → Text
sent char_label t = t
sent percent_label t = t
sent default_label t = t
sent _ t = uart_puts t

put-IsNumber :
    (base : ℕ) (value : ℕ → ℕ) (sign : Text) (v m : ℕ) (rest : List Arg) (r : Option Text)
    → ((t : Text) → uart_puts (sign ++ t) ≡ sign ++ uart_puts t)
    → Digits base value m v [] r
    → (t : Text) × IsNumber base value sign v m t
      × (put sign rest r ≡ some (uart_puts t, length t % 2 ^ 32, rest))
unfolding put
put-IsNumber base value sign v m rest none through h = absurd h
put-IsNumber base value sign v m rest (some q) through (read, longer, short) = (
  sign ++ q,
  (q, refl, read, omega (arith, longer), omega (arith, short)),
  ap₂ (λ a b. some (a, b, rest)) (sym (through q))
      (ap (λ n. n % 2 ^ 32) (sym (length-append sign q))),
)

pub convert_lem :
    {l : Label} {args : List Arg} (c : ℕ) (rest : List Arg)
    → Matches l args
    → (t : Text) × Shown l c args t
      × (convert l c (args ++ rest) ≡ some (sent l t, length t % 2 ^ 32, rest))
unfolding Shown convert put uart_puts
convert_lem c rest is_null = (codes "(null)", refl, refl)
convert_lem c rest (is_text s) = (s, refl, ap (λ k. some (uart_puts s, k, rest)) (omega arith))
convert_lem c rest (is_signed n h) = elim (Bool-cases (negative n)) [
  | inl below ↦
      let (t, number, e) =
        put-IsNumber 10 decimal_value (codes "-") (2 ^ 32 - n) 20 rest (decimal (2 ^ 32 - n))
          (λ t. refl) (decimal-Digits (2 ^ 32 - n) (omega arith)) in
      (t, inr (ground (arith, below), number), rw below e)
  | inr above ↦
      let (t, number, e) =
        put-IsNumber 10 decimal_value [] n 20 rest (decimal n) (λ t. refl)
          (decimal-Digits n (omega (arith, h))) in
      (t, inl (ground (arith, above), number), rw above e)
]
convert_lem c rest (is_unsigned n h) =
    put-IsNumber 10 decimal_value [] n 20 rest (decimal n) (λ t. refl)
      (decimal-Digits n (omega (arith, h)))
convert_lem c rest (is_hex a n letter h) =
    put-IsNumber 16 (hex_value a) [] n 16 rest (hexadecimal a n) (λ t. refl)
      (hexadecimal-Digits a n letter (omega (arith, h)))
convert_lem c rest (is_pointer n h) =
    put-IsNumber 16 (hex_value b'a') (codes "0x") n 16 rest (hexadecimal b'a' n) (λ t. refl)
      (hexadecimal-Digits b'a' n (omega arith) h)
convert_lem c rest (is_char n) = (n % 2 ^ 8 ∷ [], refl, refl)
convert_lem c rest is_percent = (codes "%", refl, refl)
convert_lem c rest is_default = (b'%' ∷ c ∷ [], refl, refl)
