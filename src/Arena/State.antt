-- ===== src/Arena/State.antt =====
-- The allocator's whole state (src/boot/allocator.cpp): what `arena_alloc` and `arena_free` keep.
use rp4_demo.Base.{
  ℕ, ◌+◌, ◌-◌, ◌%◌, ◌≤◌, ◌<◌, ◌≡◌, ◌∙◌, refl, true, some, List, [], ◌∷◌, arith, ◌==◌, if◌then◌else◌,
  length,
}
use rp4_demo.Arena.{
  Arena, block_hdr, min_alloc, size_mod, arena_size, walk_fuel, align_up, alloc_loop, arena_init,
  arena_alloc,
}
use rp4_demo.Arena.Segments.{Segment, link, Tiles, span, length-le-span}
use rp4_demo.Arena.Alloc.{place, alloc_loop-place}
use rp4_demo.Arena.Live.{span-place}

-- The size that the search looks for.
abbrev pub wanted : ℕ → ℕ
wanted requested = align_up (if requested == 0 then min_alloc else requested)

-- The blocks of an initialised arena: they tile the whole array.
pub record Holds (arena : ℕ) (s : Arena) (bs : List Segment) : Type 0 where
  pub ready : s.initialized ≡ true
  pub first : s.free_list ≡ arena
  pub tiles : Tiles s.mem arena bs
  pub whole : span bs ≡ arena_size
  pub nonnull : 0 < arena
  pub in_memory : arena + arena_size < size_mod

-- Below 2 ^ 64 - 15 the size is rounded up to the next multiple of 16.
pub align_up_bounds :
    (n : ℕ) → n + 15 < size_mod → (n ≤ align_up n) × (align_up n < n + 16) × (align_up n % 16 ≡ 0)
unfolding align_up
align_up_bounds n h = omega arith

-- From 2 ^ 64 - 15 on the sum wraps, and the rounded size is 0.
pub align_up_wraps : (n : ℕ) → size_mod ≤ n + 15 → n < size_mod → align_up n ≡ 0
unfolding align_up
align_up_wraps n h k = omega arith

pub fuel-enough : (bs : List Segment) → span bs ≡ arena_size → length bs + 2 < walk_fuel
fuel-enough bs h = omega (arith, length-le-span bs)

link-arena : (arena : ℕ) (bs : List Segment) → span bs ≡ arena_size → link arena bs ≡ arena
link-arena arena [] h = absurd (omega arith)
link-arena arena (b ∷ bs) h = refl

-- The first block of the arena is made by `arena_init`.
pub arena_init-Holds :
    (arena : ℕ) (s : Arena)
    → 0 < arena
    → arena + arena_size < size_mod
    → Holds arena (arena_init arena s) (record { size = arena_size - block_hdr; free = true } ∷ [])
unfolding arena_init
arena_init-Holds arena s h k = record {
  ready = refl;
  first = refl;
  tiles = (ground arith, tt);
  whole = refl;
  nonnull = h;
  in_memory = k;
}

-- `arena_alloc` returns: it gives the payload of a first fit, and the arena holds its blocks.
pub arena_alloc-place :
    (arena requested : ℕ) (s : Arena) (bs : List Segment)
    → Holds arena s bs
    → let r = place (wanted requested) arena bs in
      (s' : Arena) × (arena_alloc arena requested s ≡ some (r.0, s')) × Holds arena s' r.1
unfolding arena_alloc
arena_alloc-place arena requested s bs h =
    let (m', run, tiles, below) =
      alloc_loop-place walk_fuel (wanted requested) arena bs s.mem
        (omega (arith, fuel-enough bs h.whole)) h.nonnull h.tiles in
    let start : alloc_loop walk_fuel (wanted requested) s.free_list s.mem
        ≡ some ((place (wanted requested) arena bs).0, m') =
      rw (h.first) (rw (link-arena arena bs h.whole) at run) in
    (
      record s { mem = m' },
      ground (arith, start),
      record {
        ready = h.ready;
        first = h.first;
        tiles = tiles;
        whole = span-place (wanted requested) arena bs ∙ h.whole;
        nonnull = h.nonnull;
        in_memory = h.in_memory;
      },
    )
