-- ===== src/Arena/Tests.antt =====
-- Runs of the allocator (src/boot/allocator.cpp), and its theorems at concrete inputs.
use rp4_demo.Base.{
  ℕ, ◌+◌, ◌-◌, ◌%◌, ◌≤◌, ◌≡◌, refl, true, false, some, List, [], ◌∷◌, arith, ◌==◌, if◌then◌else◌,
}
use rp4_demo.Arena.{
  Arena, block_hdr, size_mod, arena_size, arena_init, arena_alloc, arena_free, align_up, join,
  coalesce, alloc_loop, take_block, split,
}
use mathlib.Core.Option
use rp4_demo.Arena.Segments.{Segment}
use rp4_demo.Arena.Live.{Placed, used}
use rp4_demo.Arena.Merge.{Coalesced}
use rp4_demo.Arena.State.{wanted, Holds, arena_init-Holds}
use rp4_demo.Arena.Calls.{
  arena_alloc_lem, arena_free_lem, arena_free-arena_alloc, arena_alloc_first,
}

abbrev base : ℕ
base = 0x100000

abbrev empty : Arena
empty = record {
  mem = λ x. record { size = 0; next = 0; free = false };
  free_list = 0;
  initialized = false;
}

abbrev one : List Segment
one = record { size = arena_size - block_hdr; free = true } ∷ []

-- The arena after its first allocation.
abbrev two : List Segment
two =
    record { size = 112; free = false }
    ∷ record { size = arena_size - block_hdr - 112 - block_hdr; free = true }
    ∷ []

abbrev busy : Arena
busy = record {
  mem = λ x.
      if x == base
      then record { size = 112; next = base + 136; free = false }
      else record { size = arena_size - block_hdr - 112 - block_hdr; next = 0; free = true };
  free_list = base;
  initialized = true;
}

program : Unit {0}
unfolding arena_init arena_alloc arena_free align_up join coalesce alloc_loop take_block split
program = tt

two_calls : Option.map (λ r. r.0) (arena_alloc base 100 empty) ≡ some (base + 24)
unfolding program
two_calls = refl

fresh-Holds : Holds base (arena_init base empty) one
fresh-Holds = arena_init-Holds base empty (omega arith) (omega arith)

busy-Holds : Holds base busy two
busy-Holds = record {
  ready = refl;
  first = refl;
  tiles = (refl, (refl, tt));
  whole = refl;
  nonnull = omega arith;
  in_memory = omega arith;
}

arena_alloc_lem_example :
    (p : ℕ) × (s' : Arena) × (bs' : List Segment) × (arena_alloc base 100 (arena_init base empty)
      ≡ some (p, s'))
    × Holds base s' bs'
    × Placed (wanted 100) base one (p, bs')
    × (100 ≤ wanted 100)
arena_alloc_lem_example =
    arena_alloc_lem base 100 (arena_init base empty) one fresh-Holds (omega arith)

arena_free_lem_example :
    (s' : Arena) × (bs' : List Segment) × (arena_free (base + 24) busy ≡ some s')
    × Holds base s' bs'
    × Coalesced bs'
    × (used base bs' ≡ [])
arena_free_lem_example = arena_free_lem base (base + 24) 112 busy two [] [] busy-Holds refl

arena_alloc_first_example :
    (s' : Arena) × (bs' : List Segment) × (arena_alloc base (size_mod - 1) empty
      ≡ some (base + block_hdr, s'))
    × Holds base s' bs'
    × ((base + block_hdr) % 16 ≡ 8)
    × (size_mod ≤ size_mod - 1 + 15 → wanted (size_mod - 1) ≡ 0)
unfolding align_up
arena_alloc_first_example =
    arena_alloc_first base (size_mod - 1) empty (omega arith) (omega arith) refl refl (omega arith)
      (omega arith)

first_call : (s' : Arena) × (arena_alloc base 100 (arena_init base empty) ≡ some (base + 24, s'))
unfolding program
first_call = (_, refl)

arena_free-arena_alloc_example :
    (s'' : Arena) × (bs'' : List Segment) × (arena_free (base + 24) first_call.0 ≡ some s'')
    × Holds base s'' bs''
    × Coalesced bs''
    × (used base bs'' ≡ used base one)
arena_free-arena_alloc_example =
    arena_free-arena_alloc base 100 (base + 24) (arena_init base empty) first_call.0 one fresh-Holds
      first_call.1 (omega arith)
