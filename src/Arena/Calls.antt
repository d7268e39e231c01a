-- ===== src/Arena/Calls.antt =====
-- The two calls of src/boot/allocator.cpp on a whole arena.
use rp4_demo.Base.{
  ℕ, ◌+◌, ◌-◌, ◌%◌, ◌≤◌, ◌<◌, ◌≡◌, ◌≢◌, ◌∙◌, sym, refl, ap, subst, true, false, Option, some, List,
  [], ◌∷◌, ◌++◌, arith, ◌==◌, length,
}
use rp4_demo.Arena.{
  Arena, Memory, write, block_hdr, size_mod, arena_size, walk_fuel, arena_init, coalesce,
  arena_alloc, arena_free,
}
use rp4_demo.Arena.Segments.{Segment, Tiles, span}
use rp4_demo.Arena.Alloc.{place}
use rp4_demo.Arena.Free.{melt, coalesce-melt}
use rp4_demo.Arena.Live.{
  used, Placed, full, took, place-Placed, release, used-release, span-release, used-above,
}
use rp4_demo.Arena.Merge.{span-melt, used-melt, Coalesced, melt-Coalesced, Tiles-release}
use rp4_demo.Arena.State.{
  wanted, Holds, align_up_bounds, align_up_wraps, arena_init-Holds, arena_alloc-place, fuel-enough,
}

-- On an arena that tiles, for a request below 2 ^ 64 - 15: `arena_alloc` returns, the arena still
-- tiles, and either no free block is large enough, the result is null and no block has changed, or
-- the result is a new payload of at least the bytes asked, and every other payload in use is as before.
pub arena_alloc_lem :
    (arena requested : ℕ) (s : Arena) (bs : List Segment)
    → Holds arena s bs
    → requested + 15 < size_mod
    → (p : ℕ) × (s' : Arena) × (bs' : List Segment) × (arena_alloc arena requested s ≡ some (p, s'))
      × Holds arena s' bs'
      × Placed (wanted requested) arena bs (p, bs')
      × (requested ≤ wanted requested)
arena_alloc_lem arena requested s bs h small =
    let (s', run, holds) = arena_alloc-place arena requested s bs h in
    let r = place (wanted requested) arena bs in
    (
      r.0,
      s',
      r.1,
      run,
      holds,
      place-Placed (wanted requested) arena bs,
      ground (arith, align_up_bounds requested, align_up_bounds 16),
    )

free_steps :
    (p : ℕ) (s : Arena) (m : Memory)
    → 24 ≤ p
    → p < size_mod
    → coalesce walk_fuel s.free_list
        (write s.mem (p - block_hdr) (record (s.mem (p - block_hdr)) { free = true }))
      ≡ some m
    → arena_free p s ≡ some (record s { mem = m })
unfolding arena_free
free_steps p s m above below run =
    let e : (p + size_mod - block_hdr) % size_mod ≡ p - block_hdr = omega arith in
    let nonnull : (p == 0) ≡ false = ground arith in rw (e, nonnull, run)

used-le :
    (a p n : ℕ) (bs : List Segment) (xs ys : List (ℕ × ℕ))
    → used a bs ≡ xs ++ (p, n) ∷ ys
    → p + n ≤ a + span bs
used-le a p n [] [] ys e = ground arith
used-le a p n [] (x ∷ xs) ys e = ground arith
used-le a p n (b ∷ bs) [] ys e = ground (arith, used-le (a + block_hdr + b.size) p n bs [] ys)
used-le a p n (b ∷ bs) (x ∷ xs) ys e = ground (
  arith,
  used-le (a + block_hdr + b.size) p n bs (x ∷ xs) ys,
  used-le (a + block_hdr + b.size) p n bs xs ys,
)

free-melt :
    (arena : ℕ) (s : Arena) (bs : List Segment) (m : Memory)
    → Holds arena s bs
    → (c : Segment) (cs : List Segment) → span (c ∷ cs) ≡ span bs
    → Tiles m arena (c ∷ cs)
    → (m' : Memory) × (coalesce walk_fuel s.free_list m ≡ some m')
      × Holds arena (record s { mem = m' }) (melt c cs)
free-melt arena s bs m h c cs same t =
    let fuel : length cs + 1 < walk_fuel = omega (arith, fuel-enough (c ∷ cs) (same ∙ h.whole)) in
    let (m', run, tiles, below) = coalesce-melt walk_fuel arena c cs m fuel h.nonnull t in
    (
      m',
      rw (h.first) run,
      record {
        ready = h.ready;
        first = h.first;
        tiles = tiles;
        whole = span-melt c cs ∙ same ∙ h.whole;
        nonnull = h.nonnull;
        in_memory = h.in_memory;
      },
    )

-- On an arena that tiles, for a payload in use: `arena_free` returns, the arena still tiles, no two
-- neighbouring blocks are free, and exactly that payload is no longer in use.
pub arena_free_lem :
    (arena p n : ℕ) (s : Arena) (bs : List Segment) (xs ys : List (ℕ × ℕ))
    → Holds arena s bs
    → used arena bs ≡ xs ++ (p, n) ∷ ys
    → (s' : Arena) × (bs' : List Segment) × (arena_free p s ≡ some s')
      × Holds arena s' bs'
      × Coalesced bs'
      × (used arena bs' ≡ xs ++ ys)
arena_free_lem arena p n s bs xs ys h e = finish (release p arena bs) refl
  where
    above : arena + block_hdr ≤ p
    above = used-above arena p n bs xs ys e

    below : p + n ≤ arena + span bs
    below = used-le arena p n bs xs ys e

    finish :
        (l : List Segment)
        → release p arena bs ≡ l
        → (s' : Arena) × (bs' : List Segment) × (arena_free p s ≡ some s')
          × Holds arena s' bs'
          × Coalesced bs'
          × (used arena bs' ≡ xs ++ ys)
    finish [] q = absurd (omega (arith, ap span q, span-release p arena bs, h.whole))
    finish (c ∷ cs) q =
        let m = write s.mem (p - block_hdr) (record (s.mem (p - block_hdr)) { free = true }) in
        let tiled = subst (Tiles m arena) q (Tiles-release s.mem arena p n bs xs ys e h.tiles) in
        let same = sym (ap span q) ∙ span-release p arena bs in
        let (m', run, holds) = free-melt arena s bs m h c cs same tiled in
        (
          record s { mem = m' },
          melt c cs,
          free_steps p s m' (omega (arith, above)) (omega (arith, below, h.whole, h.in_memory)) run,
          holds,
          melt-Coalesced c cs,
          used-melt arena c cs ∙ sym (ap (used arena) q) ∙ used-release arena p n bs xs ys e,
        )

-- What `arena_alloc` has handed out, `arena_free` takes back: both return, and the payloads in use are
-- those of before the pair of calls.
pub arena_free-arena_alloc :
    (arena requested p : ℕ) (s s' : Arena) (bs : List Segment)
    → Holds arena s bs
    → arena_alloc arena requested s ≡ some (p, s')
    → p ≢ 0
    → (s'' : Arena) × (bs'' : List Segment) × (arena_free p s' ≡ some s'')
      × Holds arena s'' bs''
      × Coalesced bs''
      × (used arena bs'' ≡ used arena bs)
arena_free-arena_alloc arena requested p s s' bs h call nonnull =
    let (t, run, holds) = arena_alloc-place arena requested s bs h in
    let r = place (wanted requested) arena bs in
    let same : ◌≡◌ {A = Option (ℕ × Arena)} (some (p, s')) (some (r.0, t)) = sym call ∙ run in
    let same_p : p ≡ r.0 = ground arith in
    let same_s : s' ≡ t = ground arith in
    go (place-Placed (wanted requested) arena bs) same_p
      (subst (λ u. Holds arena u r.1) (sym same_s) holds)
  where
    go :
        Placed (wanted requested) arena bs (place (wanted requested) arena bs)
        → p ≡ (place (wanted requested) arena bs).0
        → Holds arena s' (place (wanted requested) arena bs).1
        → (s'' : Arena) × (bs'' : List Segment) × (arena_free p s' ≡ some s'')
          × Holds arena s'' bs''
          × Coalesced bs''
          × (used arena bs'' ≡ used arena bs)
    go (full z same none_fits) e g = absurd (nonnull (e ∙ z))
    go (took n xs ys fits pos before after) e g =
        let at : used arena (place (wanted requested) arena bs).1 ≡ xs ++ (p, n) ∷ ys =
          rw e after in
        let (s'', bs'', run, holds, merged, live) =
          arena_free_lem arena p n s' (place (wanted requested) arena bs).1 xs ys g at in
        (s'', bs'', run, holds, merged, live ∙ sym before)

place-fresh :
    (needed arena : ℕ)
    → needed + 24 ≤ arena_size
    → (place needed arena (record { size = arena_size - block_hdr; free = true } ∷ [])).0
      ≡ arena + block_hdr
unfolding place
place-fresh needed arena h = ground arith

alloc-init :
    (arena requested : ℕ) (s : Arena)
    → s.initialized ≡ false
    → arena_alloc arena requested s ≡ arena_alloc arena requested (arena_init arena s)
unfolding arena_alloc arena_init
alloc-init arena requested s h = rw h

-- The first call on an array at a multiple of 16 makes the arena, and returns an address that is 8
-- past a multiple of 16, for every request that fits; a request from 2 ^ 64 - 15 on is one of them,
-- since its rounded size is 0.
pub arena_alloc_first :
    (arena requested : ℕ) (s : Arena)
    → 0 < arena
    → arena + arena_size < size_mod
    → arena % 16 ≡ 0
    → s.initialized ≡ false
    → requested < size_mod
    → wanted requested + block_hdr ≤ arena_size
    → (s' : Arena) × (bs' : List Segment) × (arena_alloc arena requested s
        ≡ some (arena + block_hdr, s'))
      × Holds arena s' bs'
      × ((arena + block_hdr) % 16 ≡ 8)
      × (size_mod ≤ requested + 15 → wanted requested ≡ 0)
arena_alloc_first arena requested s nonnull inside aligned new small fits =
    let start = arena_init-Holds arena s nonnull inside in
    let (s', run, holds) = arena_alloc-place arena requested (arena_init arena s) _ start in
    (
      s',
      _,
      alloc-init arena requested s new
          ∙ run
          ∙ ap (λ q. some (q, s')) (place-fresh (wanted requested) arena fits),
      holds,
      omega arith,
      λ big. ground (arith, align_up_wraps requested),
    )
