-- ===== src/Libos.antt =====
-- src/libos: the POSIX calls. The trap into the kernel is a parameter. Machine integers are given by their
-- bits.
pub mod Errors
mod Tests
use rp4_demo.Base.{ℕ, ◌+◌, ◌-◌, ◌/◌, ◌%◌, ◌^◌, Bool, ltb, if◌then◌else◌}

-- `__qnxmicro_syscall3`: a number and three arguments; the answer has 64 bits.
pub record Trap : Type 1 where
  pub State : Type 0
  pub syscall3 : ℕ → ℕ → ℕ → ℕ → State → ℕ × State

abbrev pub long_mod : ℕ
long_mod = 2 ^ 64

abbrev pub int_mod : ℕ
int_mod = 2 ^ 32

abbrev pub long_negative : ℕ → Bool
long_negative r = ltb (2 ^ 63 - 1) r

abbrev pub int_negative : ℕ → Bool
int_negative r = ltb (2 ^ 31 - 1) r

-- An `int` that is handed on as a `uintptr_t`.
abbrev pub extend : ℕ → ℕ
extend fd = if int_negative fd then fd + (2 ^ 64 - 2 ^ 32) else fd

module _ (t : Trap) where
  open t use {State, syscall3}

  -- The kernel and `errno`.
  pub record Posix : Type 0 where
    pub errno : ℕ
    pub kernel : State

  -- `if (r < 0) { errno = (int)(-r); return -1; } return r;`
  pub long_result : ℕ × State → ℕ → ℕ × Posix
  long_result (r, s) errno =
      if long_negative r
      then (2 ^ 64 - 1, record { errno = (2 ^ 64 - r) % int_mod; kernel = s })
      else (r, record { errno = errno; kernel = s })

  pub read : ℕ → ℕ → ℕ → Posix → ℕ × Posix
  unfolding long_result
  read fd buf count p = long_result (syscall3 1 (extend fd) buf count p.kernel) p.errno

  pub write : ℕ → ℕ → ℕ → Posix → ℕ × Posix
  unfolding long_result
  write fd buf count p = long_result (syscall3 2 (extend fd) buf count p.kernel) p.errno

  pub lseek : ℕ → ℕ → ℕ → Posix → ℕ × Posix
  unfolding long_result
  lseek fd offset whence p =
      long_result (syscall3 13 (extend fd) offset (extend whence) p.kernel) p.errno

  -- `if (fd < 0) { errno = -fd; return -1; }` on an `int`, and what is returned otherwise.
  pub int_result : ℕ → State → ℕ → ℕ → ℕ × Posix
  int_result r s errno good =
      if int_negative r
      then (int_mod - 1, record { errno = (int_mod - r) % int_mod; kernel = s })
      else (good, record { errno = errno; kernel = s })

  -- The answer is cut to an `int` first.
  pub open_path : ℕ → ℕ → Posix → ℕ × Posix
  unfolding int_result
  open_path path flags p =
      let (r, s) = syscall3 0 path (extend flags) 0 p.kernel in
      int_result (r % int_mod) s p.errno (r % int_mod)

  pub close : ℕ → Posix → ℕ × Posix
  unfolding int_result
  close fd p =
      let (r, s) = syscall3 3 (extend fd) 0 0 p.kernel in int_result (r % int_mod) s p.errno 0

  -- 1 where the answer is above 0.
  pub isatty : ℕ → Posix → ℕ × Posix
  isatty fd p =
      let (r, s) = syscall3 15 (extend fd) 0 0 p.kernel in
      (
        if ltb 0 r then (if long_negative r then 0 else 1) else 0,
        record { errno = p.errno; kernel = s },
      )
