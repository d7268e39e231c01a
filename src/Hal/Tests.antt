-- ===== src/Hal/Tests.antt =====
-- The theorems of the board's registers (src/hal/hal.cppm) at concrete inputs.
use rp4_demo.Base.{◌+◌, ◌*◌, ◌/◌, ◌≤◌, ◌<◌, arith}
use rp4_demo.Hal.I2s.{base, divisor, divisor_lem}

divisor_lem_example :
    ((divisor 44100).1 < 4096)
    × (((divisor 44100).0 * 4096 + (divisor 44100).1) * 44100 ≤ base * 4096 + 44100 / 2)
    × (base * 4096 + 44100 / 2 < ((divisor 44100).0 * 4096 + (divisor 44100).1) * 44100 + 44100)
divisor_lem_example = divisor_lem 44100 (omega arith) (omega arith)
