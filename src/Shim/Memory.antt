-- ===== src/Shim/Memory.antt =====
-- The memory and stream calls of src/shim/libc_shim.c over the arena, which is a parameter here: its state
-- holds its headers, and the bytes of the payloads stand beside it.
use rp4_demo.Base.{
  write, write_same, write_other, ℕ, zero, suc, ◌+◌, ◌*◌, ◌%◌, ◌^◌, ◌≤◌, ◌<◌, ◌≡◌, ◌≢◌, ◌⊎◌, inl,
  inr, refl, sym, ap, ◌∙◌, arith, Bool-cases, ◌==◌, if◌then◌else◌, Text, eq_or_lt, take,
}

pub record Allocator : Type 1 where
  pub State : Type 0
  -- `arena_alloc`: the payload's address, or 0, and `arena_free`
  pub arena_alloc : ℕ → State → ℕ × State
  pub arena_free : ℕ → State → State

-- `fwrite` of a buffer: what it sends to the UART, and what it returns.
pub fwrite : Text → ℕ → ℕ → Text × ℕ
fwrite buf size count = (take (size * count % 2 ^ 64) buf, count % 2 ^ 32)

module _ (a : Allocator) where
  open a use {State, arena_alloc, arena_free}

  pub record Memory : Type 0 where
    pub arena : State
    pub bytes : ℕ → ℕ

  -- `for (i...) d[i] = 0` and `for (i...) d[i] = s[i]` from `i` on, with so many rounds left.
  pub zero_bytes : ℕ → ℕ → ℕ → (ℕ → ℕ) → ℕ → ℕ
  zero_bytes d i zero m = m
  zero_bytes d i (suc n) m = zero_bytes d (i + 1) n (write (d + i) 0 m)

  pub copy_bytes : ℕ → ℕ → ℕ → ℕ → (ℕ → ℕ) → ℕ → ℕ
  copy_bytes d s i zero m = m
  copy_bytes d s i (suc n) m = copy_bytes d s (i + 1) n (write (d + i) (m (s + i)) m)

  abbrev pub allocated : ℕ → Memory → ℕ × Memory
  allocated size m = let (p, s) = arena_alloc size m.arena in (p, record m { arena = s })

  pub malloc : ℕ → Memory → ℕ × Memory
  malloc size m = allocated size m

  pub free : ℕ → Memory → Memory
  free p m = record m { arena = arena_free p m.arena }

  pub calloc : ℕ → ℕ → Memory → ℕ × Memory
  unfolding zero_bytes
  calloc count size m =
      let total = count * size % 2 ^ 64 in
      let (p, m') = allocated total m in
      if p == 0 then (p, m') else (p, record m' { bytes = zero_bytes p 0 total m'.bytes })

  pub realloc : ℕ → ℕ → Memory → ℕ × Memory
  unfolding copy_bytes free
  realloc ptr new_size m =
      if ptr == 0
      then allocated new_size m
      else if new_size == 0
      then (0, free ptr m)
      else (let (p, m') = allocated new_size m in
          (
            p,
            free ptr
                (if p == 0 then m' else record m' { bytes = copy_bytes p ptr 0 new_size m'.bytes }),
          ))

  pub aligned_alloc : ℕ → ℕ → Memory → ℕ × Memory
  aligned_alloc alignment size m = allocated size m

  -- The copy of bytes that do not overlap: what it writes, and what it leaves.
  copy_bytes-elsewhere :
      (n d s i q : ℕ) (m : ℕ → ℕ) → (q < d + i) ⊎ (d + (i + n) ≤ q) → copy_bytes d s i n m q ≡ m q
  unfolding copy_bytes
  copy_bytes-elsewhere zero d s i q m h = refl
  copy_bytes-elsewhere (suc n) d s i q m h =
      copy_bytes-elsewhere n d s (i + 1) q (write (d + i) (m (s + i)) m) (ground arith)
      ∙ write_other (d + i) q (m (s + i)) m (ground arith)

  copy_bytes_lem :
      (n d s i j total : ℕ) (m : ℕ → ℕ)
      → (d + total ≤ s) ⊎ (s + total ≤ d)
      → i + n ≤ total
      → i ≤ j
      → j < i + n
      → copy_bytes d s i n m (d + j) ≡ m (s + j)
  unfolding copy_bytes
  copy_bytes_lem zero d s i j total m apart fits low high = ground arith
  copy_bytes_lem (suc n) d s i j total m apart fits low high = elim (eq_or_lt i j low) [
    | inl e ↦
        copy_bytes-elsewhere n d s (i + 1) (d + j) (write (d + i) (m (s + i)) m) (inl (omega arith))
        ∙ ap (λ k. write (d + i) (m (s + i)) m (d + k)) (sym e)
        ∙ write_same (d + i) (m (s + i)) m
        ∙ ap (λ k. m (s + k)) e
    | inr later ↦
        copy_bytes_lem n d s (i + 1) j total (write (d + i) (m (s + i)) m) apart (omega arith)
          (omega arith) (omega arith)
        ∙ write_other (d + i) (s + j) (m (s + i)) m (ground arith)
  ]

  -- Where the arena answers new_size with p, and the new block, if p is not 0, shares no byte with the
  -- new_size bytes from ptr on: for ptr = 0, realloc is malloc; for another ptr and size 0 it frees ptr and
  -- returns 0. In every other case it asks the arena for the new size, frees ptr whether it got a block or
  -- not, and returns p. For p = 0 no byte changes; otherwise byte j of the new block is byte j of the old
  -- one for every j below new_size, and no byte outside the new block changes.
  pub realloc_lem :
      (ptr new_size p : ℕ) (s : State) (m : Memory)
      → arena_alloc new_size m.arena ≡ (p, s)
      → (p ≢ 0 → (p + new_size ≤ ptr) ⊎ (ptr + new_size ≤ p))
      → ((ptr ≡ 0) × (realloc ptr new_size m ≡ (p, record m { arena = s })))
        ⊎ ((ptr ≢ 0)
            × (new_size ≡ 0)
            × (realloc ptr new_size m ≡ (0, record m { arena = arena_free ptr m.arena })))
        ⊎ ((ptr ≢ 0)
            × (new_size ≢ 0)
            × ((realloc ptr new_size m).0 ≡ p)
            × ((realloc ptr new_size m).1.arena ≡ arena_free ptr s)
            × (((p ≡ 0) × ((realloc ptr new_size m).1.bytes ≡ m.bytes))
                ⊎ ((p ≢ 0)
                    × ((j : ℕ)
                        → j < new_size
                        → (realloc ptr new_size m).1.bytes (p + j) ≡ m.bytes (ptr + j))
                    × ((q : ℕ)
                        → (q < p) ⊎ (p + new_size ≤ q)
                        → (realloc ptr new_size m).1.bytes q ≡ m.bytes q))))
  unfolding realloc free
  realloc_lem ptr new_size p s m asked apart = elim (Bool-cases (ptr == 0)) [
    | inl null ↦ inl (ground (arith, null), rw (null, asked) refl)
    | inr some_ptr ↦ elim (Bool-cases (new_size == 0)) [
      | inl nothing ↦
          inr (inl (ground (arith, some_ptr), ground (arith, nothing), rw (some_ptr, nothing) refl))
      | inr some_size ↦
          let given : (ptr ≢ 0) × (new_size ≢ 0) =
            (ground (arith, some_ptr), ground (arith, some_size)) in
          elim (Bool-cases (p == 0)) [
            | inl no_block ↦
                rw (some_ptr, some_size, asked, no_block)
                  (inr (inr (given.0, given.1, refl, refl, inl (ground (arith, no_block), refl))))
            | inr some_block ↦
                let got : p ≢ 0 = ground (arith, some_block) in
                rw (some_ptr, some_size, asked, some_block)
                  (inr (
                    inr (
                      given.0,
                      given.1,
                      refl,
                      refl,
                      inr (
                        got,
                        (λ j below.
                            copy_bytes_lem new_size p ptr 0 j new_size m.bytes (apart got)
                              (omega arith) (omega arith) (omega arith)),
                        λ q out.
                            copy_bytes-elsewhere new_size p ptr 0 q m.bytes (ground (arith, out)),
                      ),
                    )))
          ]
    ]
  ]
