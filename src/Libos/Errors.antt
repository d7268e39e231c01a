-- ===== src/Libos/Errors.antt =====
-- The error convention of src/libos: an answer below zero is an error number.
use rp4_demo.Base.{ℕ, ◌-◌, ◌%◌, ◌^◌, ◌≤◌, ◌<◌, ◌≡◌, refl, ap, ◌∙◌, arith, true, false, ltb}
use rp4_demo.Libos.{
  Trap, Posix, read, write, lseek, open_path, close, long_result, int_result, extend,
}

-- The calls that set `errno`, with their arguments.
pub data Call : Type 0 where
  read_call write_call : ℕ → ℕ → ℕ → Call
  lseek_call : ℕ → ℕ → ℕ → Call
  open_call : ℕ → ℕ → Call
  close_call : ℕ → Call

pub data Answer : Type 0 where
  granted refused : ℕ → Answer

-- The bits of an answer, and the answers that an `int` holds.
abbrev pub raw : Answer → ℕ
raw (granted r) = r
raw (refused e) = 2 ^ 64 - e

abbrev pub InInt : Answer → Type 0
InInt (granted r) = r < 2 ^ 31
InInt (refused e) = (1 ≤ e) × (e < 2 ^ 31)

-- What the caller is to get: the number, or -1 as an `int` or a `long`.
abbrev pub or_minus_one : ℕ → ℕ → Answer → ℕ
or_minus_one width good (granted r) = good
or_minus_one width good (refused e) = 2 ^ width - 1

abbrev pub number : Answer → ℕ
number (granted r) = r
number (refused e) = 0

abbrev pub value : Call → Answer → ℕ
value (read_call fd buf count) a = or_minus_one 64 (number a) a
value (write_call fd buf count) a = or_minus_one 64 (number a) a
value (lseek_call fd offset whence) a = or_minus_one 64 (number a) a
value (open_call path flags) a = or_minus_one 32 (number a) a
value (close_call fd) a = or_minus_one 32 0 a

abbrev pub error_of : Answer → ℕ → ℕ
error_of (refused e) old = e
error_of (granted r) old = old

module _ (t : Trap) where
  open t use {State, syscall3}

  -- What a call asks of the kernel, and the call.
  abbrev pub trap_of : Call → State → ℕ × State
  trap_of (read_call fd buf count) s = syscall3 1 (extend fd) buf count s
  trap_of (write_call fd buf count) s = syscall3 2 (extend fd) buf count s
  trap_of (lseek_call fd offset whence) s = syscall3 13 (extend fd) offset (extend whence) s
  trap_of (open_call path flags) s = syscall3 0 path (extend flags) 0 s
  trap_of (close_call fd) s = syscall3 3 (extend fd) 0 0 s

  pub perform : Call → Posix t → ℕ × Posix t
  perform (read_call fd buf count) p = read t fd buf count p
  perform (write_call fd buf count) p = write t fd buf count p
  perform (lseek_call fd offset whence) p = lseek t fd offset whence p
  perform (open_call path flags) p = open_path t path flags p
  perform (close_call fd) p = close t fd p

  long_result_lem :
      (a : Answer) (s : State) (errno : ℕ)
      → InInt a
      → long_result t (raw a, s) errno
        ≡ (or_minus_one 64 (number a) a, record { errno = error_of a errno; kernel = s })
  unfolding long_result
  long_result_lem (granted r) s errno h =
      let kept : ltb (2 ^ 63 - 1) r ≡ false = ground arith in rw kept refl
  long_result_lem (refused e) s errno h =
      let below : ltb (2 ^ 63 - 1) (2 ^ 64 - e) ≡ true = ground arith in
      let back : (2 ^ 64 - (2 ^ 64 - e)) % 2 ^ 32 ≡ e = omega arith in rw (below, back) refl

  int_result_lem :
      (a : Answer) (s : State) (errno good : ℕ)
      → InInt a
      → int_result t (raw a % 2 ^ 32) s errno good
        ≡ (or_minus_one 32 good a, record { errno = error_of a errno; kernel = s })
  unfolding int_result
  int_result_lem (granted r) s errno good h =
      let kept : ltb (2 ^ 31 - 1) (r % 2 ^ 32) ≡ false = ground arith in rw kept refl
  int_result_lem (refused e) s errno good h =
      let below : ltb (2 ^ 31 - 1) ((2 ^ 64 - e) % 2 ^ 32) ≡ true = ground arith in
      let back : (2 ^ 32 - (2 ^ 64 - e) % 2 ^ 32) % 2 ^ 32 ≡ e = omega arith in
      rw (below, back) refl

same_number :
    (a : Answer) → InInt a → or_minus_one 32 (raw a % 2 ^ 32) a ≡ or_minus_one 32 (number a) a
same_number (granted r) h = omega arith
same_number (refused e) h = refl

-- For a kernel that answers a call with a number below 2 ^ 31, or with -e for an error e from 1 to
-- 2 ^ 31 - 1: read, write, lseek and open return the number and close returns 0, and errno stays; for an
-- error each returns -1 and sets errno to e. The kernel's state is the one that it left.
pub perform_lem :
    (t : Trap) (c : Call) (a : Answer) (s : t.State) (p : Posix t)
    → InInt a
    → trap_of t c p.kernel ≡ (raw a, s)
    → perform t c p ≡ (value c a, record { errno = error_of a p.errno; kernel = s })
unfolding perform read write lseek open_path close
perform_lem t (read_call fd buf count) a s p h e =
    ap (λ r. long_result t r p.errno) e ∙ long_result_lem t a s p.errno h
perform_lem t (write_call fd buf count) a s p h e =
    ap (λ r. long_result t r p.errno) e ∙ long_result_lem t a s p.errno h
perform_lem t (lseek_call fd offset whence) a s p h e =
    ap (λ r. long_result t r p.errno) e ∙ long_result_lem t a s p.errno h
perform_lem t (open_call path flags) a s p h e =
    ap (λ r. int_result t (r.0 % 2 ^ 32) r.1 p.errno (r.0 % 2 ^ 32)) e
    ∙ int_result_lem t a s p.errno (raw a % 2 ^ 32) h
    ∙ ap (λ v. (v, record { errno = error_of a p.errno; kernel = s })) (same_number a h)
perform_lem t (close_call fd) a s p h e =
    ap (λ r. int_result t (r.0 % 2 ^ 32) r.1 p.errno 0) e ∙ int_result_lem t a s p.errno 0 h
