-- ===== src/Amp/Tests.antt =====
-- The theorem on the amplifier (src/apps/lv2_amp.c) at a concrete input.
use rp4_demo.Base.{ℕ, ◌+◌, ◌*◌, ◌≡◌, refl, inl, inr, arith, ltb}
use rp4_demo.Amp.{Arithmetic, Amp, Memory, run, coefficient}
use rp4_demo.Amp.Aliasing.{Ports, run_lem}

-- Numbers in place of floats.
abbrev numbers : Arithmetic
numbers = record {
  Float = ℕ;
  f_zero = 0;
  f_floor = 0;
  f_scale = 1;
  f_exp10 = λ x. x;
  f_less = ltb;
  f_mul = λ x y. x * y;
}

-- Both channels in place, two samples each.
abbrev in_place : Amp
in_place = record { gain = 4; input_l = 8; input_r = 16; output_l = 8; output_r = 16 }

abbrev memory : Memory numbers
memory a = a + 1

in_place-Ports : Ports in_place 2
in_place-Ports = record {
  left = inl refl;
  right = inl refl;
  left_right = inl (omega arith);
  right_left = inr (omega arith);
  outputs = inl (omega arith);
}

run_lem_example :
    (run numbers in_place 2 memory (8 + 1) ≡ memory (8 + 1) * coefficient numbers (memory 4))
    × (run numbers in_place 2 memory (16 + 1) ≡ memory (16 + 1) * coefficient numbers (memory 4))
    × (run numbers in_place 2 memory 4 ≡ memory 4)
run_lem_example =
    run_lem numbers in_place 2 1 4 memory in_place-Ports (omega arith) (inl (omega arith))
      (inl (omega arith))
