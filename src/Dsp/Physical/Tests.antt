-- ===== src/Dsp/Physical/Tests.antt =====
-- The theorem on the physical models of src/dsp/dsp.cppm at a concrete model, with natural numbers for
-- floats.
use rp4_demo.Base.{ℕ, ◌+◌, ◌-◌, ◌*◌, ◌/◌, ◌%◌, ◌^◌, ◌≡◌, not, [], ◌∷◌, ltb, ◌==◌}
use rp4_demo.Dsp.Floats.{Floats}
use rp4_demo.Dsp.Physical.{plucked, pm_l2s, at_least, mk_plucked, tick_physical}
use rp4_demo.Dsp.Physical.Buffers.{InRange, lengths, new_plucked, ticked, Reached-InRange}

abbrev naturals : Floats
naturals = record {
  Float = ℕ;
  f_zero = 0;
  f_one = 1;
  f_tiny = 1;
  f_lit = λ t. 340;
  f_less = ltb;
  f_nonzero = λ a. not (a == 0);
  f_add = λ a b. a + b;
  f_sub = λ a b. a - b;
  f_mul = λ a b. a * b;
  f_div = λ a b. a / b;
  f_fmod = λ a b. a % b;
  f_pow = λ a b. a ^ b;
  f_atan2 = λ a b. a;
  f_remainder = λ a b. a % b;
  f_neg = λ a. a;
  f_math = λ op a. a;
  int_of = λ a. a;
  float_of = λ n. n;
}

Reached-InRange_example :
    (lengths naturals
        (tick_physical naturals (plucked (mk_plucked naturals 5 340 1)) (1 ∷ 900 ∷ [])).0
      ≡ 5 ∷ [])
    × InRange naturals
        (tick_physical naturals (plucked (mk_plucked naturals 5 340 1)) (1 ∷ 900 ∷ [])).0
unfolding pm_l2s at_least
Reached-InRange_example =
    Reached-InRange naturals (5 ∷ [])
      (tick_physical naturals (plucked (mk_plucked naturals 5 340 1)) (1 ∷ 900 ∷ [])).0
      (ticked (1 ∷ 900 ∷ []) (new_plucked 5 340 1))
