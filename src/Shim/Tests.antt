-- ===== src/Shim/Tests.antt =====
-- The theorems on src/shim/libc_shim.c at concrete inputs.
use rp4_demo.Base.{
  ◌-◌, ◌/◌, ◌%◌, ◌^◌, ◌≡◌, [], ◌∷◌, some, codes, Text, List, arith, ℕ, refl, ◌+◌, ◌*◌, inr, ◌⊎◌,
  ◌≢◌, ◌<◌, ◌≤◌,
}
use rp4_demo.Shim.Memory.{Allocator, Memory, realloc, realloc_lem}
use rp4_demo.Shim.Division.{udivti3, umodti3, udivti3_lem}
use rp4_demo.Shim.Print.{int, string, printed, vfprintf}
use rp4_demo.Shim.Print.Pieces.{is_signed, is_text}
use rp4_demo.Shim.Print.Formats.{
  Piece, byte, conversion, format, arguments, Shows, all_sent, shown_length, vfprintf_lem,
}

udivti3_lem_example : (udivti3 1000000 7 ≡ 1000000 / 7) × (umodti3 1000000 7 ≡ 1000000 % 7)
udivti3_lem_example = udivti3_lem 1000000 7 (omega arith)

-- `<%d %s` for -1 and a text
abbrev pieces : List Piece
pieces =
    byte b'<' (omega arith)
    ∷ conversion b'd' (int (2 ^ 32 - 1) ∷ []) (is_signed (2 ^ 32 - 1) (omega arith))
    ∷ byte b' ' (omega arith)
    ∷ conversion b's' (string (some (codes "ok")) ∷ []) (is_text (codes "ok"))
    ∷ []

vfprintf_lem_example :
    (ts : List Text) × Shows pieces ts
    × (vfprintf (format pieces) (arguments pieces)
        ≡ printed (all_sent pieces ts) (shown_length ts % 2 ^ 32))
vfprintf_lem_example = vfprintf_lem pieces

-- An allocator whose next block starts at its state, and that takes nothing back.
abbrev bump : Allocator
bump = record {
  State = ℕ;
  arena_alloc = λ size next. (next, next + size);
  arena_free = λ p next. next;
}

abbrev memory : Memory bump
memory = record { arena = 64; bytes = λ q. q * 2 }

abbrev block : ℕ
block = 32

abbrev fresh_block : ℕ
fresh_block = 64

abbrev eight : ℕ
eight = 8

realloc_lem_example :
    ((block ≡ 0) × (realloc bump block eight memory ≡ (fresh_block, record memory { arena = 72 })))
    ⊎ ((block ≢ 0)
        × (eight ≡ 0)
        × (realloc bump block eight memory ≡ (0, record memory { arena = 64 })))
    ⊎ ((block ≢ 0)
        × (eight ≢ 0)
        × ((realloc bump block eight memory).0 ≡ fresh_block)
        × ((realloc bump block eight memory).1.arena ≡ 72)
        × (((fresh_block ≡ 0) × ((realloc bump block eight memory).1.bytes ≡ memory.bytes))
            ⊎ ((fresh_block ≢ 0)
                × ((j : ℕ)
                    → j < eight
                    → (realloc bump block eight memory).1.bytes (fresh_block + j)
                      ≡ memory.bytes (block + j))
                × ((q : ℕ)
                    → (q < fresh_block) ⊎ (fresh_block + eight ≤ q)
                    → (realloc bump block eight memory).1.bytes q ≡ memory.bytes q))))
realloc_lem_example =
    realloc_lem bump block eight fresh_block 72 memory refl (λ got. inr (omega arith))
