-- ===== src/Arena/Free.antt =====
-- The forward pass of `arena_free` (src/boot/allocator.cpp) against a merge on the list of blocks.
use rp4_demo.Base.{
  ℕ, zero, suc, ◌+◌, ◌<◌, ◌≡◌, ◌∙◌, refl, subst, true, false, ◌&&◌, inl, inr, some, List, [], ◌∷◌,
  arith, if◌then◌else◌, length, Bool-cases,
}
use rp4_demo.Arena.{Memory, block_hdr, join, coalesce}
use rp4_demo.Arena.Segments.{Segment, link, Tiles, Tiles-write}

-- Neighbouring free blocks of `b ∷ bs` become one block, their headers included.
unfoldable pub melt : Segment → List Segment → List Segment
melt b [] = b ∷ []
melt b (c ∷ cs) =
    let joined = melt (record { size = b.size + (block_hdr + c.size); free = b.free }) cs in
    let onward = b ∷ melt c cs in if b.free && c.free then joined else onward

link-melt : (c : ℕ) (b : Segment) (bs : List Segment) → link c (melt b bs) ≡ c
unfolding melt
link-melt c b [] = refl
link-melt c b (d ∷ ds) =
    ground (arith, link-melt c (record { size = b.size + (block_hdr + d.size); free = b.free }) ds)

-- Joining the two first blocks of a chain.
Tiles-join :
    (m : Memory) (a : ℕ) (b c : Segment) (cs : List Segment)
    → Tiles m a (b ∷ c ∷ cs)
    → Tiles (join a m) a (record { size = b.size + (block_hdr + c.size); free = b.free } ∷ cs)
unfolding join
Tiles-join m a b c cs t =
    subst
      (λ d.
        (join a m a
          ≡ record { size = b.size + (block_hdr + c.size); next = link d cs; free = b.free })
        × Tiles (join a m) d cs)
      (let e : a + block_hdr + b.size + block_hdr + c.size
            ≡ a + block_hdr + (b.size + (block_hdr + c.size)) =
          omega arith in
        e)
      (
        rw (t.0, t.1.0) (ground arith),
        Tiles-write m (a + block_hdr + b.size + block_hdr + c.size) a _ cs (omega arith) t.1.1,
      )

join-below : (m : Memory) (a x : ℕ) → x < a → join a m x ≡ m x
unfolding join
join-below m a x h = ground arith

-- One round of the pass at the head of a chain.
module _ (f a : ℕ) (b c : Segment) (cs : List Segment) (m : Memory) (p : 0 < a)
    (t : Tiles m a (b ∷ c ∷ cs)) where
  coalesce-join : (b.free && c.free) ≡ true → coalesce (suc f) a m ≡ coalesce f a (join a m)
  unfolding coalesce
  coalesce-join both = ground (arith, t.0, t.1.0)

  coalesce_onward :
      (b.free && c.free) ≡ false → coalesce (suc f) a m ≡ coalesce f (a + block_hdr + b.size) m
  unfolding coalesce
  coalesce_onward one = ground (arith, t.0, t.1.0)

coalesce_last :
    (f a : ℕ) (b : Segment) (m : Memory)
    → 0 < a
    → Tiles m a (b ∷ [])
    → coalesce (suc (suc f)) a m ≡ some m
unfolding coalesce
coalesce_last f a b m p t = ground (arith, t.0)

-- The pass runs as `melt` does: it ends with enough fuel, leaves the chain of the merged blocks, and
-- writes nothing below the chain.
pub coalesce-melt :
    (f a : ℕ) (b : Segment) (bs : List Segment) (m : Memory)
    → length bs + 1 < f
    → 0 < a
    → Tiles m a (b ∷ bs)
    → (m' : Memory) × (coalesce f a m ≡ some m')
      × Tiles m' a (melt b bs)
      × ((x : ℕ) → x < a → m' x ≡ m x)
unfolding melt
coalesce-melt zero a b bs m h p t = absurd (omega arith)
coalesce-melt (suc zero) a b bs m h p t = absurd (omega arith)
coalesce-melt (suc (suc f)) a b [] m h p t = (m, coalesce_last f a b m p t, t, λ x q. refl)
coalesce-melt (suc (suc f)) a b (c ∷ cs) m h p t = elim (Bool-cases (b.free && c.free)) [
  | inl both ↦
      let (m', run, tiles, below) =
        coalesce-melt (suc f) a (record { size = b.size + (block_hdr + c.size); free = b.free }) cs
          (join a m) (omega arith) p (Tiles-join m a b c cs t) in
      rw (coalesce-join (suc f) a b c cs m p t both, both)
        (m', run, tiles, λ x q. below x q ∙ join-below m a x q)
  | inr one ↦
      let (m', run, tiles, below) =
        coalesce-melt (suc f) (a + block_hdr + b.size) c cs m (omega arith) (omega arith) t.1 in
      rw (coalesce_onward (suc f) a b c cs m p t one, one)
        (m', run, (rw link-melt (below a (omega arith) ∙ t.0), tiles), λ x q. below x (omega arith))
]
