-- ===== src/Amp.antt =====
-- src/apps/lv2_amp.c: the LV2 amplifier. The ports are pointers into one memory, which the host may let
-- overlap; the arithmetic of the processor is a parameter.
mod Tests
pub mod Aliasing
use rp4_demo.Base.{
  write, ℕ, zero, suc, ◌+◌, Option, none, some, ◌==◌, if◌then◌else◌, Text, codes, Bool,
}

-- `float`, with the two constants of `run`: `f_floor` is -90, `f_scale` is 0.05, and `f_exp10` is
-- `powf(10, x)`.
pub record Arithmetic : Type 1 where
  pub Float : Type 0
  pub f_zero : Float
  pub f_floor : Float
  pub f_scale : Float
  pub f_exp10 : Float → Float
  pub f_less : Float → Float → Bool
  pub f_mul : Float → Float → Float

-- `PortIndex`
pub data PortIndex : Type 0 where
  amp_gain amp_input_l amp_input_r amp_output_l amp_output_r : PortIndex

-- The cast of `connect_port`; `none` is a number that the switch has no case for.
pub port_index : ℕ → Option PortIndex
port_index port =
    if port == 0
    then some amp_gain
    else if port == 1
    then some amp_input_l
    else if port == 2
    then some amp_input_r
    else if port == 3
    then some amp_output_l
    else if port == 4
    then some amp_output_r
    else none

-- `Amp`: the address of the first float of each port, counted in floats; 0 is null.
pub record Amp : Type 0 where
  pub gain : ℕ
  pub input_l : ℕ
  pub input_r : ℕ
  pub output_l : ℕ
  pub output_r : ℕ

-- What `instantiate` gives where `calloc` does; `none` is a null handle.
pub instantiate : Bool → Option Amp
instantiate granted =
    if granted
    then some (record { gain = 0; input_l = 0; input_r = 0; output_l = 0; output_r = 0 })
    else none

pub connect_port : ℕ → ℕ → Amp → Amp
unfolding port_index
connect_port port data_at amp = elim (port_index port) [
  | none ↦ amp
  | some amp_gain ↦ record amp { gain = data_at }
  | some amp_input_l ↦ record amp { input_l = data_at }
  | some amp_input_r ↦ record amp { input_r = data_at }
  | some amp_output_l ↦ record amp { output_l = data_at }
  | some amp_output_r ↦ record amp { output_r = data_at }
]

abbrev pub amp_uri : Text
amp_uri = codes "http://rp4.tba/plugins/amp"

-- `lv2_descriptor`, by the URI of what it gives.
pub lv2_descriptor : ℕ → Option Text
lv2_descriptor index = if index == 0 then some amp_uri else none

module _ (fl : Arithmetic) where
  open fl use {Float, f_zero, f_floor, f_scale, f_exp10, f_less, f_mul}

  abbrev pub Memory : Type 0
  Memory = ℕ → Float

  pub coefficient : Float → Float
  coefficient gain_db = if f_less f_floor gain_db then f_exp10 (f_mul gain_db f_scale) else f_zero

  -- The loop of `run` from sample `i` on, with so many rounds left.
  pub samples : Amp → Float → ℕ → ℕ → Memory → Memory
  samples amp coef i zero m = m
  samples amp coef i (suc n) m =
      let left = write (amp.output_l + i) (f_mul (m (amp.input_l + i)) coef) m in
      samples amp coef (i + 1) n
        (write (amp.output_r + i) (f_mul (left (amp.input_r + i)) coef) left)

  -- The gain is read once, before the loop.
  pub run : Amp → ℕ → Memory → Memory
  unfolding coefficient samples
  run amp n_samples m = samples amp (coefficient (m amp.gain)) 0 n_samples m
