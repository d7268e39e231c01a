-- ===== src/Shim/Print.antt =====
-- `vfprintf` of src/shim/libc_shim.c: what goes to the UART, and what is returned.
pub mod Pieces
pub mod Formats
use rp4_demo.Base.{
  ℕ, zero, suc, ◌+◌, ◌-◌, ◌*◌, ◌/◌, ◌%◌, ◌^◌, ◌≤◌, ◌<◌, ◌≡◌, ◌≢◌, refl, ap, sym, ◌∙◌, leb, ltb,
  ◌==◌, if◌then◌else◌, arith, Bool-cases, inl, inr, Option, none, some, List, [], ◌∷◌, ◌++◌, ◌||◌,
  Text, true, false, Bool, codes, length, length-append, append_assoc, ap₂, All, Option-cases,
}
use rp4_demo.Shim.Digits.{
  decimal, hexadecimal, Digits, decimal-Digits, hexadecimal-Digits, decimal_value, hex_value,
}

-- What `va_arg` gives: a string or null, the bits of an `int`, or those of a pointer.
pub data Arg : Type 0 where
  string : Option Text → Arg
  int : ℕ → Arg
  pointer : ℕ → Arg

pub data Outcome : Type 0 where
  -- the bytes on the UART, and `count`
  printed : Text → ℕ → Outcome
  -- the format is read behind its terminator
  past_end : Outcome
  -- an argument is missing or is of another type, or the digits do not fit
  undefined : Outcome

-- `uart_puts`
pub uart_puts : Text → Text
uart_puts [] = []
uart_puts (c ∷ cs) = if c == b'\n' then b'\r' ∷ c ∷ uart_puts cs else c ∷ uart_puts cs

-- What one conversion sends, what it adds to `count`, and the arguments that are left.
abbrev pub Conversion : Type 0
Conversion = Option (Text × ℕ × List Arg)

-- `uart_puts(p); count += (int)_strlen(p);` behind `sign`, which is counted too; `count` is an `int`,
-- here its 32 bits.
pub put : Text → List Arg → Option Text → Conversion
unfolding uart_puts
put sign args none = none
put sign args (some p) = some (sign ++ uart_puts p, (length sign + length p) % 2 ^ 32, args)

abbrev pub negative : ℕ → Bool
negative n = leb (2 ^ 31) n

-- `long v = va_arg(ap, int);` without its sign
abbrev pub magnitude : ℕ → ℕ
magnitude n = if negative n then 2 ^ 32 - n else n

abbrev pub minus_sign : ℕ → Text
minus_sign n = if negative n then codes "-" else []

-- The labels of the `switch`; a hexadecimal number goes with the first letter of its digits.
pub data Label : Type 0 where
  text_label signed_label unsigned_label pointer_label char_label percent_label default_label :
      Label
  hex_label : ℕ → Label

abbrev pub label : ℕ → Label
label c =
    if c == b's'
    then text_label
    else if c == b'd' || c == b'i'
    then signed_label
    else if c == b'u'
    then unsigned_label
    else if c == b'x'
    then hex_label b'a'
    else if c == b'X'
    then hex_label b'A'
    else if c == b'p'
    then pointer_label
    else if c == b'c'
    then char_label
    else if c == b'%'
    then percent_label
    else default_label

-- The `switch` at the byte `c`.
pub convert : Label → ℕ → List Arg → Conversion
unfolding put
convert text_label c (string none ∷ args) = put [] args (some (codes "(null)"))
convert text_label c (string (some s) ∷ args) = put [] args (some s)
convert signed_label c (int n ∷ args) = put (minus_sign n) args (decimal (magnitude n))
convert unsigned_label c (int n ∷ args) = put [] args (decimal n)
convert (hex_label a) c (int n ∷ args) = put [] args (hexadecimal a n)
convert pointer_label c (pointer n ∷ args) = put (codes "0x") args (hexadecimal b'a' n)
convert char_label c (int n ∷ args) = some (n % 2 ^ 8 ∷ [], 1, args)
convert percent_label c args = some (b'%' ∷ [], 1, args)
convert default_label c args = some (b'%' ∷ c ∷ [], 2, args)
convert _ c args = none

abbrev pub behind : Text → ℕ → Outcome → Outcome
behind out n (printed rest count) = printed (out ++ rest) ((n + count) % 2 ^ 32)
behind out n past_end = past_end
behind out n undefined = undefined

-- `if (*fmt == '\n') uart_putc_raw('\r'); uart_putc_raw(*fmt++);`
abbrev pub plain : ℕ → Text
plain c = if c == b'\n' then b'\r' ∷ c ∷ [] else c ∷ []

pub vfprintf : Text → List Arg → Outcome
unfolding convert
vfprintf [] args = printed [] 0
vfprintf (c ∷ []) args = if c == b'%' then past_end else printed (plain c) 1
vfprintf (c ∷ d ∷ fmt) args = elim (c == b'%') [
  | true ↦ elim (convert (label d) d args) [
    | none ↦ undefined
    | some (out, n, rest) ↦ behind out n (vfprintf fmt rest)
  ]
  | false ↦ behind (plain c) 1 (vfprintf (d ∷ fmt) args)
]
