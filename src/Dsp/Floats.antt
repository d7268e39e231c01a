-- ===== src/Dsp/Floats.antt =====
-- `float` and `int` as the nodes of src/dsp/dsp.cppm use them. The floats are a parameter; an `int` is
-- given by its 32 bits.
use rp4_demo.Base.{
  ℕ, zero, suc, ◌+◌, ◌-◌, ◌*◌, ◌/◌, ◌%◌, ◌^◌, ◌<◌, ◌≡◌, arith, Bool, ltb, if◌then◌else◌, min, Text,
}

pub data BinOp : Type 0 where
  add sub mul div fmod pow min_of max_of and or xor shl shr atan2 rem : BinOp

pub data UnaryOp : Type 0 where
  sin cos tan asin acos atan sqrt exp log log10 abs floor ceil rint to_int to_float neg : UnaryOp

-- The arithmetic of the processor and of <cmath>.
pub record Floats : Type 1 where
  pub Float : Type 0
  pub f_zero : Float
  pub f_one : Float
  -- `1e-30f`
  pub f_tiny : Float
  -- The value of a literal of the source, without its suffix.
  pub f_lit : Text → Float
  -- `a < b`
  pub f_less : Float → Float → Bool
  -- `a != 0.f`
  pub f_nonzero : Float → Bool
  pub f_add : Float → Float → Float
  pub f_sub : Float → Float → Float
  pub f_mul : Float → Float → Float
  pub f_div : Float → Float → Float
  pub f_fmod : Float → Float → Float
  pub f_pow : Float → Float → Float
  pub f_atan2 : Float → Float → Float
  pub f_remainder : Float → Float → Float
  pub f_neg : Float → Float
  -- `std::sin` and the other functions of one argument.
  pub f_math : UnaryOp → Float → Float
  -- `int(a)`, as its bits, and `float(n)`.
  pub int_of : Float → ℕ
  pub float_of : ℕ → Float

-- A bitwise operation on the low `w` bits; `f` is its table on the sum of two bits.
pub bitwise : (ℕ → ℕ) → ℕ → ℕ → ℕ → ℕ
bitwise f zero a b = 0
bitwise f (suc w) a b = f (a % 2 + b % 2) + 2 * bitwise f w (a / 2) (b / 2)

abbrev pub int_mod : ℕ
int_mod = 2 ^ 32

-- `a << b` and `a >> b` by the low five bits of `b`, as the processor shifts; `>>` keeps the sign.
abbrev pub shift_left : ℕ → ℕ → ℕ
shift_left a b = a * 2 ^ (b % 32) % int_mod

abbrev pub shift_right : ℕ → ℕ → ℕ
shift_right a b =
    if ltb a (2 ^ 31) then a / 2 ^ (b % 32) else int_mod - 1 - (int_mod - 1 - a) / 2 ^ (b % 32)

-- `std::clamp(d, 0, hi)` for a bound that is not negative.
pub clamp_index : ℕ → ℕ → ℕ
clamp_index d hi = if ltb d (2 ^ 31) then min d hi else 0

pub clamp_index-lt : (d len : ℕ) → 0 < len → clamp_index d (len - 1) < len
unfolding clamp_index
clamp_index-lt d len h = ground arith

pub clamp_index_self : (len : ℕ) → len < 2 ^ 31 → clamp_index len (len - 1) ≡ len - 1
unfolding clamp_index
clamp_index_self len h = ground arith

module _ (fl : Floats) where
  open fl use {
    Float, f_zero, f_one, f_tiny, f_less, f_nonzero, f_add, f_sub, f_mul, f_div, f_fmod, f_pow,
    f_atan2, f_remainder, f_neg, f_math, int_of, float_of,
  }

  -- `std::min`, `std::max` and `std::clamp`.
  abbrev pub f_min : Float → Float → Float
  f_min a b = if f_less b a then b else a

  abbrev pub f_max : Float → Float → Float
  f_max a b = if f_less a b then b else a

  abbrev pub f_clamp : Float → Float → Float → Float
  f_clamp v lo hi = if f_less v lo then lo else if f_less hi v then hi else v

  pub apply_bin : BinOp → Float → Float → Float
  apply_bin add a b = f_add a b
  apply_bin sub a b = f_sub a b
  apply_bin mul a b = f_mul a b
  apply_bin div a b = if f_nonzero b then f_div a b else f_zero
  apply_bin fmod a b = if f_nonzero b then f_fmod a b else f_zero
  apply_bin pow a b = f_pow a b
  apply_bin min_of a b = f_min a b
  apply_bin max_of a b = f_max a b
  apply_bin and a b = float_of (bitwise (λ t. t / 2) 32 (int_of a) (int_of b))
  apply_bin or a b = float_of (bitwise (λ t. min t 1) 32 (int_of a) (int_of b))
  apply_bin xor a b = float_of (bitwise (λ t. t % 2) 32 (int_of a) (int_of b))
  apply_bin shl a b = float_of (shift_left (int_of a) (int_of b))
  apply_bin shr a b = float_of (shift_right (int_of a) (int_of b))
  apply_bin atan2 a b = f_atan2 a b
  apply_bin rem a b = if f_nonzero b then f_remainder a b else f_zero

  pub apply_unary : UnaryOp → Float → Float
  apply_unary sqrt a = f_math sqrt (f_max f_zero a)
  apply_unary log a = f_math log (f_max f_tiny a)
  apply_unary log10 a = f_math log10 (f_max f_tiny a)
  apply_unary to_int a = float_of (int_of a)
  apply_unary to_float a = a
  apply_unary neg a = f_neg a
  apply_unary op a = f_math op a
