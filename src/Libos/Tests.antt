-- ===== src/Libos/Tests.antt =====
-- The theorem on the POSIX calls (src/libos) at a concrete input.
use rp4_demo.Base.{ℕ, ◌+◌, ◌-◌, ◌^◌, ◌≡◌, refl, arith}
use rp4_demo.Libos.{Trap, Posix}
use rp4_demo.Libos.Errors.{open_call, refused, perform, perform_lem}

-- A kernel that knows no file, and counts its calls.
abbrev no_files : Trap
no_files = record { State = ℕ; syscall3 = λ n a b c s. (2 ^ 64 - 2, s + 1) }

abbrev fresh : Posix no_files
fresh = record { errno = 0; kernel = 7 }

perform_lem_example :
    perform no_files (open_call 4096 0) fresh ≡ (2 ^ 32 - 1, record { errno = 2; kernel = 8 })
perform_lem_example =
    perform_lem no_files (open_call 4096 0) (refused 2) 8 fresh (omega arith, omega arith) refl
