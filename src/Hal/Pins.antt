-- ===== src/Hal/Pins.antt =====
-- GPIO functions, the mini UART and the I2C controller of src/hal/hal.cppm. A loop that waits for the
-- device runs on fuel; `none` means that the device has not answered within it.
use rp4_demo.Base.{
  ℕ, zero, suc, ◌+◌, ◌-◌, ◌*◌, ◌/◌, ◌%◌, ◌^◌, Bool, true, false, not, Option, none, some, List, [],
  ◌∷◌, ◌==◌, if◌then◌else◌, Text, length,
}
use Prim.Native.Nat.{bit_and, bit_or}
use rp4_demo.Hal.{Device, u32_mod}
use rp4_demo.Hal.Names.{gpio_base, peripheral_base, uart_base}

-- `gpio::Func`
pub data Func : Type 0 where
  input output alt0 alt1 alt2 alt3 alt4 alt5 : Func

pub func_bits : Func → ℕ
func_bits input = 0
func_bits output = 1
func_bits alt0 = 4
func_bits alt1 = 5
func_bits alt2 = 6
func_bits alt3 = 7
func_bits alt4 = 3
func_bits alt5 = 2

abbrev pub bsc1_base : ℕ
bsc1_base = peripheral_base + 0x804000

module _ (d : Device) where
  open d use {State, load, store}

  pub set_function : ℕ → Func → State → State
  unfolding func_bits
  set_function pin func s =
      let reg = gpio_base + 4 * (pin / 10) in
      let shift = pin % 10 * 3 in
      let (val, s') = load reg s in
      store reg
        (bit_or (bit_and val (u32_mod - 1 - 7 * 2 ^ shift)) (func_bits func * 2 ^ shift % u32_mod))
        s'

  pub setup_i2s_pins : State → State
  setup_i2s_pins s =
      set_function 21 alt0 (set_function 20 alt0 (set_function 19 alt0 (set_function 18 alt0 s)))

  -- `while (mmio_read(addr) & mask) {}` and `while (!(mmio_read(addr) & mask)) {}`
  pub poll : ℕ → ℕ → ℕ → Bool → State → Option State
  poll zero addr mask until s = none
  poll (suc f) addr mask until s =
      let (v, s') = load addr s in
      let rest = poll f addr mask until s' in
      if (if until then not (bit_and v mask == 0) else bit_and v mask == 0) then some s' else rest

  module _ (fuel : ℕ) where
    pub putc : ℕ → State → Option State
    unfolding poll
    putc c s = elim (poll fuel (uart_base + 0x54) 0x20 true s) [
      | none ↦ none
      | some s' ↦ some (store (uart_base + 0x40) c s')
    ]

    pub puts : Text → State → Option State
    unfolding putc
    puts [] s = some s
    puts (c ∷ cs) s =
        let first = if c == 10 then putc 13 s else some s in
        elim first [
          | none ↦ none
          | some s1 ↦ elim (putc c s1) [ none ↦ none | some s2 ↦ puts cs s2 ]
        ]

  pub i2c_init : State → State
  unfolding set_function
  i2c_init s =
      store bsc1_base (2 ^ 15)
        (store (bsc1_base + 0x14) 1500 (set_function 3 alt0 (set_function 2 alt0 s)))

  -- The wait for the end of a transfer; `false` is an acknowledge error.
  pub wait_done : ℕ → State → Option (Bool × State)
  wait_done zero s = none
  wait_done (suc f) s =
      let (v, s1) = load (bsc1_base + 0x04) s in
      let (e, s2) = load (bsc1_base + 0x04) s1 in
      let rest = wait_done f s2 in
      if not (bit_and v 2 == 0)
      then some (true, s1)
      else if not (bit_and e (2 ^ 8) == 0)
      then some (false, s2)
      else rest

  pub fill_fifo : List ℕ → State → State
  fill_fifo [] s = s
  fill_fifo (b ∷ bs) s = fill_fifo bs (store (bsc1_base + 0x10) b s)

  pub write : ℕ → ℕ → List ℕ → State → Option (Bool × State)
  unfolding wait_done fill_fifo
  write fuel addr data_ s =
      let cleared = store (bsc1_base + 0x04) (2 ^ 9 + 2 ^ 8 + 2) s in
      let addressed =
        store (bsc1_base + 0x08) (length data_ % u32_mod) (store (bsc1_base + 0x0C) addr cleared) in
      let started = store bsc1_base (2 ^ 15 + 2 ^ 7) (fill_fifo data_ addressed) in
      elim (wait_done fuel started) [
        | none ↦ none
        | some (acked, s1) ↦
            let (v, s2) = load (bsc1_base + 0x04) (store (bsc1_base + 0x04) 2 s1) in
            if acked then some (bit_and v (2 ^ 8) == 0, s2) else some (false, s1)
      ]

  pub write_reg : ℕ → ℕ → ℕ → ℕ → State → Option (Bool × State)
  unfolding write
  write_reg fuel addr reg val s = write fuel addr (reg ∷ val ∷ []) s
