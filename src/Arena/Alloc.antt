-- ===== src/Arena/Alloc.antt =====
-- `arena_alloc` (src/boot/allocator.cpp) against a first fit on the list of blocks.
use rp4_demo.Base.{
  ℕ, zero, suc, ◌+◌, ◌-◌, ◌≤◌, ◌<◌, ◌≡◌, ◌∙◌, refl, ap, subst, Bool, true, false, ◌&&◌, inl, inr,
  some, List, [], ◌∷◌, arith, ltb, leb, ◌==◌, if◌then◌else◌, length, Bool-cases,
}
use rp4_demo.Arena.{Memory, block_hdr, min_alloc, split, take_block, alloc_loop}
use rp4_demo.Arena.Segments.{Segment, link, Tiles, Tiles-agree}

-- The parts of a block that is used for `needed` bytes.
unfoldable pub carve : ℕ → Segment → List Segment → List Segment
carve needed b bs =
    if ltb (block_hdr + min_alloc) (b.size - needed)
    then record { size = needed; free = false }
      ∷ record { size = b.size - needed - block_hdr; free = true }
      ∷ bs
    else record { size = b.size; free = false } ∷ bs

-- First fit: the address of the payload, or 0, and the blocks after it.
unfoldable pub place : ℕ → ℕ → List Segment → ℕ × List Segment
unfolding carve
place needed a [] = (0, [])
place needed a (b ∷ bs) =
    let rest = place needed (a + block_hdr + b.size) bs in
    if b.free && leb needed b.size then (a + block_hdr, carve needed b bs) else (rest.0, b ∷ rest.1)

link-place : (needed c a : ℕ) (bs : List Segment) → link c (place needed a bs).1 ≡ link c bs
unfolding place carve
link-place needed c a [] = refl
link-place needed c a (b ∷ bs) = ground arith

-- A store that holds the two headers of a split, and is as before above them.
Tiles-split :
    (m n : Memory) (a s k : ℕ) (bs : List Segment)
    → k + 24 ≤ s
    → n a ≡ record { size = k; next = a + block_hdr + k; free = false }
    → n (a + block_hdr + k)
      ≡ record { size = s - k - block_hdr; next = link (a + block_hdr + s) bs; free = true }
    → ((x : ℕ) → a + block_hdr + s ≤ x → n x ≡ m x)
    → Tiles m (a + block_hdr + s) bs
    → Tiles n a
        (record { size = k; free = false } ∷ record { size = s - k - block_hdr; free = true } ∷ bs)
Tiles-split m n a s k bs h e₀ e₁ same t = (
  e₀,
  subst
      (λ c.
        (n (a + block_hdr + k) ≡ record { size = s - k - block_hdr; next = link c bs; free = true })
        × Tiles n c bs)
      (let e : a + block_hdr + s ≡ a + block_hdr + k + block_hdr + (s - k - block_hdr) =
          omega arith in
        e)
      (e₁, Tiles-agree m n (a + block_hdr + s) bs same t),
)

module _ (needed a s : ℕ) (f : Bool) (v : ℕ) (m : Memory)
    (at : m a ≡ record { size = s; next = v; free = f }) (fits : needed ≤ s) where
  take_block-big :
      ltb (block_hdr + min_alloc) (s - needed) ≡ true
      → ((take_block needed a m).1 a
          ≡ record { size = needed; next = a + block_hdr + needed; free = false })
        × ((take_block needed a m).1 (a + block_hdr + needed)
            ≡ record { size = s - needed - block_hdr; next = v; free = true })
  unfolding take_block split
  take_block-big big = ground arith

  take_block-small :
      ltb (block_hdr + min_alloc) (s - needed) ≡ false
      → (take_block needed a m).1 a ≡ record { size = s; next = v; free = false }
  unfolding take_block split
  take_block-small small = ground arith

  take_block-above : (x : ℕ) → a + block_hdr + s ≤ x → (take_block needed a m).1 x ≡ m x
  unfolding take_block split
  take_block-above x h = ground arith

  take_block-below : (x : ℕ) → x < a → (take_block needed a m).1 x ≡ m x
  unfolding take_block split
  take_block-below x h = ground arith

take_block-ptr :
    (needed a : ℕ) (m : Memory) → take_block needed a m ≡ (a + block_hdr, (take_block needed a m).1)
unfolding take_block
take_block-ptr needed a m = refl

take_block-carve :
    (needed a : ℕ) (m : Memory) (b : Segment) (bs : List Segment)
    → needed ≤ b.size
    → Tiles m a (b ∷ bs)
    → Tiles (take_block needed a m).1 a (carve needed b bs)
unfolding carve
take_block-carve needed a m b bs h t =
    elim (Bool-cases (ltb (block_hdr + min_alloc) (b.size - needed))) [
      | inl big ↦
          let facts = take_block-big needed a b.size b.free _ m t.0 h big in
          rw big (
            Tiles-split m (take_block needed a m).1 a b.size needed bs (ground arith) facts.0
              facts.1 (take_block-above needed a b.size b.free _ m t.0 h) t.1)
      | inr small ↦ rw small (
        take_block-small needed a b.size b.free _ m t.0 h small,
        Tiles-agree m _ (a + block_hdr + b.size) bs
            (take_block-above needed a b.size b.free _ m t.0 h) t.1,
      )
    ]

-- The search runs as `place` does: it ends with enough fuel, returns the same payload, leaves the
-- chain of the same blocks, and writes nothing below the chain.
pub alloc_loop-place :
    (f needed a : ℕ) (bs : List Segment) (m : Memory)
    → length bs < f
    → 0 < a
    → Tiles m a bs
    → (m' : Memory) × (alloc_loop f needed (link a bs) m ≡ some ((place needed a bs).0, m'))
      × Tiles m' a (place needed a bs).1
      × ((x : ℕ) → x < a → m' x ≡ m x)
unfolding alloc_loop place
alloc_loop-place zero needed a bs m h p t = absurd (omega arith)
alloc_loop-place (suc f) needed a [] m h p t = (m, refl, tt, λ x q. refl)
alloc_loop-place (suc f) needed a (b ∷ bs) m h p t =
    let nonnull : (a == 0) ≡ false = ground arith in
    elim (Bool-cases (b.free && leb needed b.size)) [
      | inl hit ↦
          rw (nonnull, t.0, hit)
            (
              (take_block needed a m).1,
              ap some (take_block-ptr needed a m),
              take_block-carve needed a m b bs (ground arith) t,
              take_block-below needed a b.size b.free _ m t.0 (ground arith),
            )
      | inr miss ↦
          let (m', run, tiles, below) =
            alloc_loop-place f needed (a + block_hdr + b.size) bs m (omega arith) (omega arith)
              t.1 in
          rw
            (
              nonnull,
              t.0,
              miss,
              run,
              link-place needed (a + block_hdr + b.size) (a + block_hdr + b.size) bs,
            )
            (m', refl, (below a (omega arith) ∙ t.0, tiles), λ x q. below x (omega arith))
    ]
