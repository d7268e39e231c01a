-- ===== src/Amp/Aliasing.antt =====
-- What `run` of src/apps/lv2_amp.c writes, also where the host gives it one buffer for input and output.
use rp4_demo.Base.{
  write, write_same, write_other, ℕ, zero, suc, ◌+◌, ◌≤◌, ◌<◌, ◌≡◌, ◌≢◌, ◌⊎◌, refl, sym, ap, ◌∙◌,
  arith, inl, inr, eq_or_lt,
}
use rp4_demo.Amp.{Arithmetic, Amp, Memory, samples, run, coefficient}

-- Two buffers of n floats share none.
abbrev pub Disjoint : ℕ → ℕ → ℕ → Type 0
Disjoint n p q = (p + n ≤ q) ⊎ (q + n ≤ p)

-- An address is outside n floats.
abbrev pub Outside : ℕ → ℕ → ℕ → Type 0
Outside p n a = (a < p) ⊎ (p + n ≤ a)

swap : (n p q : ℕ) → Disjoint n p q → Disjoint n q p
swap n p q (inl h) = inr h
swap n p q (inr h) = inl h

apart : (n p q i j : ℕ) → Disjoint n p q → i < n → j < n → q + j ≢ p + i
apart n p q i j h hi hj = ground arith

later : (n p q i j : ℕ) → (p ≡ q) ⊎ Disjoint n p q → i < j → j < n → q + j ≢ p + i
later n p q i j h hi hj = ground arith

-- Each output is its channel's input or apart from it, and apart from all else that the loop touches.
pub record Ports (amp : Amp) (n : ℕ) : Type 0 where
  pub left : (amp.output_l ≡ amp.input_l) ⊎ Disjoint n amp.output_l amp.input_l
  pub right : (amp.output_r ≡ amp.input_r) ⊎ Disjoint n amp.output_r amp.input_r
  pub left_right : Disjoint n amp.output_l amp.input_r
  pub right_left : Disjoint n amp.output_r amp.input_l
  pub outputs : Disjoint n amp.output_l amp.output_r

module _ (fl : Arithmetic) (amp : Amp) (coef : fl.Float) where
  open fl use {Float, f_mul}

  -- The memory behind round i.
  abbrev left_of : ℕ → Memory fl → Memory fl
  left_of i m = write (amp.output_l + i) (f_mul (m (amp.input_l + i)) coef) m

  abbrev both_of : ℕ → Memory fl → Memory fl
  both_of i m = write (amp.output_r + i) (f_mul (left_of i m (amp.input_r + i)) coef) (left_of i m)

  both_of-other :
      (i a : ℕ) (m : Memory fl) → a ≢ amp.output_l + i → a ≢ amp.output_r + i → both_of i m a ≡ m a
  both_of-other i a m l r = write_other _ a _ (left_of i m) r ∙ write_other _ a _ m l

  -- The rounds from i on leave an address alone that is outside both outputs.
  samples-elsewhere :
      (n i a : ℕ) (m : Memory fl)
      → Outside (amp.output_l + i) n a
      → Outside (amp.output_r + i) n a
      → samples fl amp coef i n m a ≡ m a
  unfolding samples
  samples-elsewhere zero i a m l r = refl
  samples-elsewhere (suc n) i a m l r =
      samples-elsewhere n (i + 1) a (both_of i m) (ground arith) (ground arith)
      ∙ both_of-other i a m (ground arith) (ground arith)

  -- What a round leaves of an input that a later round reads.
  both_of-input_l :
      (i j total : ℕ) (m : Memory fl)
      → Ports amp total
      → i < j
      → j < total
      → both_of i m (amp.input_l + j) ≡ m (amp.input_l + j)
  both_of-input_l i j total m p h g =
      both_of-other i (amp.input_l + j) m (later total _ _ i j p.left h g)
        (apart total _ _ i j p.right_left (omega arith) g)

  both_of-input_r :
      (i j total : ℕ) (m : Memory fl)
      → Ports amp total
      → i < j
      → j < total
      → both_of i m (amp.input_r + j) ≡ m (amp.input_r + j)
  both_of-input_r i j total m p h g =
      both_of-other i (amp.input_r + j) m (apart total _ _ i j p.left_right (omega arith) g)
        (later total _ _ i j p.right h g)

  -- Each sample of the outputs from round i on.
  samples-left :
      (n i j total : ℕ) (m : Memory fl)
      → Ports amp total
      → i + n ≤ total
      → i ≤ j
      → j < i + n
      → samples fl amp coef i n m (amp.output_l + j) ≡ f_mul (m (amp.input_l + j)) coef
  unfolding samples
  samples-left zero i j total m p fits low high = ground arith
  samples-left (suc n) i j total m p fits low high = elim (eq_or_lt i j low) [
    | inl e ↦
        let out : Disjoint total amp.output_l amp.output_r = p.outputs in
        samples-elsewhere n (i + 1) (amp.output_l + j) (both_of i m) (omega arith) (ground arith)
        ∙ write_other _ (amp.output_l + j) _ (left_of i m)
            (apart total _ _ i j (swap total _ _ out) (omega arith) (omega arith))
        ∙ ap (λ a. left_of i m (amp.output_l + a)) (sym e)
        ∙ write_same _ _ m
        ∙ ap (λ a. f_mul (m (amp.input_l + a)) coef) e
    | inr lt ↦
        samples-left n (i + 1) j total (both_of i m) p (omega arith) (omega arith) (omega arith)
        ∙ ap (λ x. f_mul x coef) (both_of-input_l i j total m p lt (omega arith))
  ]

  samples-right :
      (n i j total : ℕ) (m : Memory fl)
      → Ports amp total
      → i + n ≤ total
      → i ≤ j
      → j < i + n
      → samples fl amp coef i n m (amp.output_r + j) ≡ f_mul (m (amp.input_r + j)) coef
  unfolding samples
  samples-right zero i j total m p fits low high = ground arith
  samples-right (suc n) i j total m p fits low high = elim (eq_or_lt i j low) [
    | inl e ↦
        let out : Disjoint total amp.output_l amp.output_r = p.outputs in
        samples-elsewhere n (i + 1) (amp.output_r + j) (both_of i m) (ground arith) (omega arith)
        ∙ ap (λ a. both_of i m (amp.output_r + a)) (sym e)
        ∙ write_same (amp.output_r + i) _ (left_of i m)
        ∙ ap (λ x. f_mul x coef)
            (write_other (amp.output_l + i) (amp.input_r + i) (f_mul (m (amp.input_l + i)) coef) m
              (apart total _ _ i i p.left_right (omega arith) (omega arith)))
        ∙ ap (λ a. f_mul (m (amp.input_r + a)) coef) e
    | inr lt ↦
        samples-right n (i + 1) j total (both_of i m) p (omega arith) (omega arith) (omega arith)
        ∙ ap (λ x. f_mul x coef) (both_of-input_r i j total m p lt (omega arith))
  ]

-- For ports where each output is its channel's input or shares no float with it, and shares none with the
-- other output and the other input: sample j of each output is sample j of its input before the call,
-- times the coefficient, and no other float changes. So a host may give one buffer for a channel's input
-- and output.
pub run_lem :
    (fl : Arithmetic) (amp : Amp) (n j a : ℕ) (m : Memory fl)
    → Ports amp n
    → j < n
    → Outside amp.output_l n a
    → Outside amp.output_r n a
    → (run fl amp n m (amp.output_l + j)
        ≡ fl.f_mul (m (amp.input_l + j)) (coefficient fl (m amp.gain)))
      × (run fl amp n m (amp.output_r + j)
          ≡ fl.f_mul (m (amp.input_r + j)) (coefficient fl (m amp.gain)))
      × (run fl amp n m a ≡ m a)
unfolding run
run_lem fl amp n j a m p h l r = (
  samples-left fl amp (coefficient fl (m amp.gain)) n 0 j n m p (omega arith) (omega arith)
      (omega arith),
  samples-right fl amp (coefficient fl (m amp.gain)) n 0 j n m p (omega arith) (omega arith)
      (omega arith),
  samples-elsewhere fl amp (coefficient fl (m amp.gain)) n 0 a m (ground arith) (ground arith),
)
