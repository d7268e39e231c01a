-- ===== src/Shim/Snprintf.antt =====
-- `snprintf` of src/shim/libc_shim.c, which copies its format.
use rp4_demo.Base.{
  ℕ, ◌+◌, ◌-◌, ◌%◌, ◌^◌, ◌≤◌, ◌<◌, ◌≡◌, leb, ltb, if◌then◌else◌, arith, Option, none, some, [], ◌∷◌,
  ◌++◌, Text, true, false, length, length-append, take, length-take, min, refl,
}

-- What is written to `buf` from its start, and what is returned; `none` means that the copy reads behind
-- the format's terminator.
pub snprintf : ℕ → Text → Option (Text × ℕ)
snprintf size fmt =
    let len = if leb size (length fmt) then (size + 2 ^ 64 - 1) % 2 ^ 64 else length fmt in
    if ltb (length fmt) len then none else some (take len fmt ++ 0 ∷ [], len % 2 ^ 32)

-- For a size of at least 1, snprintf writes the format, cut to size - 1 bytes, and a terminator: no more
-- than size bytes. It returns how many bytes of the format it copied.
pub snprintf_lem :
    (fmt : Text) (size : ℕ)
    → length fmt < 2 ^ 64 - 1
    → 0 < size
    → size < 2 ^ 64
    → (snprintf size fmt
        ≡ some (
          take (min (length fmt) (size - 1)) fmt ++ 0 ∷ [],
          min (length fmt) (size - 1) % 2 ^ 32,
        ))
      × (length (take (min (length fmt) (size - 1)) fmt ++ 0 ∷ []) ≤ size)
unfolding snprintf
snprintf_lem fmt size short some_room below =
    let n : ℕ = length fmt in
    let len : (if leb size n then (size + 2 ^ 64 - 1) % 2 ^ 64 else n) ≡ min n (size - 1) =
      ground (arith, short, some_room, below) in
    let inside : ltb n (min n (size - 1)) ≡ false = ground arith in
    (
      rw (len, inside) refl,
      omega (
        arith,
        length-append (take (min n (size - 1)) fmt) (0 ∷ []),
        length-take (min n (size - 1)) fmt,
        some_room,
      ),
    )

-- For the size 0 the length wraps, and the copy reads behind any format shorter than 2 ^ 64 - 1 bytes.
pub snprintf-past_end : (fmt : Text) → length fmt < 2 ^ 64 - 1 → snprintf 0 fmt ≡ none
unfolding snprintf
snprintf-past_end fmt short =
    let empty : leb 0 (length fmt) ≡ true = ground arith in
    let behind : ltb (length fmt) (2 ^ 64 - 1) ≡ true = ground (arith, short) in
    rw (empty, behind) refl
