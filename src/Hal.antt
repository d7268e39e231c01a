-- ===== src/Hal.antt =====
-- src/hal/hal.cppm: the registers of the board. What lies behind an address is a parameter.
pub mod Names
pub mod Pins
pub mod I2s
pub mod Dac
pub mod System
mod Tests
use rp4_demo.Base.{ℕ, ◌^◌}

-- The memory-mapped devices: a read may change them, as a FIFO does.
pub record Device : Type 1 where
  pub State : Type 0
  pub load : ℕ → State → ℕ × State
  pub store : ℕ → ℕ → State → State

abbrev pub u32_mod : ℕ
u32_mod = 2 ^ 32
