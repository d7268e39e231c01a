-- ===== src/Dsp/Naturals.antt =====
-- Natural numbers in place of floats, and a state of src/dsp/dsp.cppm with no line in use: the inputs of the
-- tests.
use rp4_demo.Base.{ℕ, ◌+◌, ◌-◌, ◌*◌, ◌/◌, ◌%◌, ◌^◌, not, none, [], ltb, ◌==◌}
use rp4_demo.Dsp.Floats.{Floats}
use rp4_demo.Dsp.State.{State}

abbrev pub naturals : Floats
naturals = record {
  Float = ℕ;
  f_zero = 0;
  f_one = 1;
  f_tiny = 1;
  f_lit = λ t. 1;
  f_less = ltb;
  f_nonzero = λ a. not (a == 0);
  f_add = λ a b. a + b;
  f_sub = λ a b. a - b;
  f_mul = λ a b. a * b;
  f_div = λ a b. a / b;
  f_fmod = λ a b. a % b;
  f_pow = λ a b. a ^ b;
  f_atan2 = λ a b. a;
  f_remainder = λ a b. a % b;
  f_neg = λ a. a;
  f_math = λ op a. a;
  int_of = λ a. a;
  float_of = λ n. n;
}

abbrev pub silent : State naturals
silent = record {
  delays = λ id. [];
  delay_pos = λ id. 0;
  feedback = λ id. none;
  params = λ l. none;
  sr = 48000;
}
