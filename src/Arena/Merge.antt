-- ===== src/Arena/Merge.antt =====
-- The merge of neighbouring free blocks (src/boot/allocator.cpp): what it keeps, and what it leaves.
use rp4_demo.Base.{
  ℕ, ◌+◌, ◌-◌, ◌≡◌, ◌∙◌, sym, refl, subst, true, false, ◌&&◌, inl, inr, List, [], ◌∷◌, ◌++◌, arith,
  ◌==◌, Bool-cases,
}
use rp4_demo.Arena.{Memory, write, block_hdr}
use rp4_demo.Arena.Segments.{Segment, link, Tiles, Tiles-write, span}
use rp4_demo.Arena.Free.{melt}
use rp4_demo.Arena.Live.{used, used-above, release}

pub span-melt : (b : Segment) (bs : List Segment) → span (melt b bs) ≡ span (b ∷ bs)
unfolding melt
span-melt b [] = refl
span-melt b (c ∷ cs) = ground (
  arith,
  span-melt c cs,
  span-melt (record { size = b.size + (block_hdr + c.size); free = b.free }) cs,
)

pub used-melt : (a : ℕ) (b : Segment) (bs : List Segment) → used a (melt b bs) ≡ used a (b ∷ bs)
unfolding melt
used-melt a b [] = refl
used-melt a b (c ∷ cs) = elim (Bool-cases (b.free && c.free)) [
  | inl both ↦
      let e : a + block_hdr + (b.size + (block_hdr + c.size))
          ≡ a + block_hdr + b.size + block_hdr + c.size =
        omega arith in
      let b_free : b.free ≡ true = ground arith in
      let c_free : c.free ≡ true = ground arith in
      rw both (
        used-melt a (record { size = b.size + (block_hdr + c.size); free = b.free }) cs
        ∙ rw (b_free, c_free, e))
  | inr one ↦ rw (one, used-melt (a + block_hdr + b.size) c cs)
]

-- No two neighbours are both free.
abbrev pub Coalesced : List Segment → Type 0
Coalesced [] = Unit
Coalesced (b ∷ []) = Unit
Coalesced (b ∷ c ∷ cs) = ((b.free && c.free) ≡ false) × Coalesced (c ∷ cs)

melt-head :
    (b : Segment) (bs : List Segment)
    → (s : ℕ) × (rest : List Segment) × (melt b bs ≡ record { size = s; free = b.free } ∷ rest)
unfolding melt
melt-head b [] = (b.size, [], refl)
melt-head b (c ∷ cs) = elim (Bool-cases (b.free && c.free)) [
  | inl both ↦
      rw both (melt-head (record { size = b.size + (block_hdr + c.size); free = b.free }) cs)
  | inr one ↦ (b.size, melt c cs, rw one)
]

Coalesced-cons :
    (b c : Segment) (s : ℕ) (l rest : List Segment)
    → l ≡ record { size = s; free = c.free } ∷ rest
    → (b.free && c.free) ≡ false
    → Coalesced l
    → Coalesced (b ∷ l)
Coalesced-cons b c s l rest e one h =
    subst (λ k. Coalesced (b ∷ k)) (sym e) (one, subst Coalesced e h)

pub melt-Coalesced : (b : Segment) (bs : List Segment) → Coalesced (melt b bs)
unfolding melt
melt-Coalesced b [] = tt
melt-Coalesced b (c ∷ cs) = elim (Bool-cases (b.free && c.free)) [
  | inl both ↦
      rw both (melt-Coalesced (record { size = b.size + (block_hdr + c.size); free = b.free }) cs)
  | inr one ↦
      let (s, rest, e) = melt-head c cs in
      rw one (Coalesced-cons b c s (melt c cs) rest e one (melt-Coalesced c cs))
]

link-release : (p c a : ℕ) (bs : List Segment) → link c (release p a bs) ≡ link c bs
unfolding release
link-release p c a [] = refl
link-release p c a (b ∷ bs) = ground arith

used-tail :
    (a p n : ℕ) (b : Segment) (bs : List Segment) (xs ys : List (ℕ × ℕ))
    → used a (b ∷ bs) ≡ xs ++ (p, n) ∷ ys
    → (a + block_hdr == p) ≡ false
    → (zs : List (ℕ × ℕ)) × (used (a + block_hdr + b.size) bs ≡ zs ++ (p, n) ∷ ys)
used-tail a p n b bs [] ys e other = ([], ground arith)
used-tail a p n b bs (x ∷ xs) ys e other = elim (Bool-cases b.free) [
  | inl is_free ↦ (x ∷ xs, ground arith)
  | inr in_use ↦ (xs, ground arith)
]

-- Marking a payload's header free, in the store and in the list.
pub Tiles-release :
    (m : Memory) (a p n : ℕ) (bs : List Segment) (xs ys : List (ℕ × ℕ))
    → used a bs ≡ xs ++ (p, n) ∷ ys
    → Tiles m a bs
    → Tiles
        (write m (p - block_hdr) (record (m (p - block_hdr)) { free = true }))
        a
        (release p a bs)
unfolding release
Tiles-release m a p n [] xs ys e t = tt
Tiles-release m a p n (b ∷ bs) xs ys e t = elim (Bool-cases (a + block_hdr == p)) [
  | inl here ↦
      let at : p - block_hdr ≡ a = ground arith in
      rw (here, at)
        (
          ground (arith, t.0),
          Tiles-write m (a + block_hdr + b.size) (p - block_hdr) _ bs (omega arith) t.1,
        )
  | inr later ↦
      let (zs, e') = used-tail a p n b bs xs ys e later in
      let above = used-above (a + block_hdr + b.size) p n bs zs ys e' in
      rw (later, link-release p (a + block_hdr + b.size) (a + block_hdr + b.size) bs)
        (ground (arith, t.0), Tiles-release m (a + block_hdr + b.size) p n bs zs ys e' t.1)
]
