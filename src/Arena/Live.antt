-- ===== src/Arena/Live.antt =====
-- The payloads in use (src/boot/allocator.cpp): what a first fit, a release and a merge do to them.
use rp4_demo.Base.{
  ℕ, ◌+◌, ◌-◌, ◌≤◌, ◌<◌, ◌≡◌, refl, ap, true, false, ◌&&◌, inl, inr, List, [], ◌∷◌, ◌++◌, arith,
  ltb, leb, ◌==◌, if◌then◌else◌, Bool-cases, All,
}
use rp4_demo.Arena.{block_hdr, min_alloc}
use rp4_demo.Arena.Segments.{Segment, span}
use rp4_demo.Arena.Alloc.{carve, place}

-- The address and the size of each payload in use, in order of address.
abbrev pub used : ℕ → List Segment → List (ℕ × ℕ)
used a [] = []
used a (b ∷ bs) =
    let rest = used (a + block_hdr + b.size) bs in
    if b.free then rest else (a + block_hdr, b.size) ∷ rest

used-carve :
    (needed a : ℕ) (b : Segment) (bs : List Segment)
    → needed ≤ b.size
    → (n : ℕ) × (needed ≤ n)
      × (used a (carve needed b bs) ≡ (a + block_hdr, n) ∷ used (a + block_hdr + b.size) bs)
unfolding carve
used-carve needed a b bs h = elim (Bool-cases (ltb (block_hdr + min_alloc) (b.size - needed))) [
  | inl big ↦
      let e : a + block_hdr + b.size
          ≡ a + block_hdr + needed + block_hdr + (b.size - needed - block_hdr) =
        ground arith in
      (needed, omega arith, rw (big, e))
  | inr small ↦ (b.size, h, rw small)
]

-- What a first fit for `needed` bytes comes to.
pub data Placed (needed a : ℕ) (bs : List Segment) (r : ℕ × List Segment) : Type 0 where
  full :
      r.0 ≡ 0
      → r.1 ≡ bs
      → All (λ b. (b.free && leb needed b.size) ≡ false) bs
      → Placed needed a bs r
  took :
      (n : ℕ) (xs ys : List (ℕ × ℕ))
      → needed ≤ n
      → 0 < r.0
      → used a bs ≡ xs ++ ys
      → used a r.1 ≡ xs ++ (r.0, n) ∷ ys
      → Placed needed a bs r

skip-Placed :
    (needed a : ℕ) (b : Segment) (bs : List Segment) (r : ℕ × List Segment)
    → (b.free && leb needed b.size) ≡ false
    → Placed needed (a + block_hdr + b.size) bs r
    → Placed needed a (b ∷ bs) (r.0, b ∷ r.1)
skip-Placed needed a b bs r miss (full z same none_fits) =
    full z (ap (◌∷◌ b) same) (miss, none_fits)
skip-Placed needed a b bs r miss (took n xs ys fits pos before after) = elim (Bool-cases b.free) [
  | inl is_free ↦ took n xs ys fits pos (rw is_free before) (rw is_free after)
  | inr in_use ↦
      took n ((a + block_hdr, b.size) ∷ xs) ys fits pos
        (rw in_use (ap (◌∷◌ (a + block_hdr, b.size)) before))
        (rw in_use (ap (◌∷◌ (a + block_hdr, b.size)) after))
]

-- A first fit fails only where no free block is large enough, and then changes nothing. Otherwise
-- it adds one payload of at least the size asked, and leaves every other payload as it was.
pub place-Placed : (needed a : ℕ) (bs : List Segment) → Placed needed a bs (place needed a bs)
unfolding place
place-Placed needed a [] = full refl refl tt
place-Placed needed a (b ∷ bs) = elim (Bool-cases (b.free && leb needed b.size)) [
  | inl hit ↦
      let (n, fits, after) = used-carve needed a b bs (ground arith) in
      let is_free : b.free ≡ true = ground arith in
      rw hit (took n [] (used (a + block_hdr + b.size) bs) fits (omega arith) (rw is_free) after)
  | inr miss ↦
      rw miss (skip-Placed needed a b bs _ miss (place-Placed needed (a + block_hdr + b.size) bs))
]

pub span-place : (needed a : ℕ) (bs : List Segment) → span (place needed a bs).1 ≡ span bs
unfolding place carve
span-place needed a [] = refl
span-place needed a (b ∷ bs) = ground (arith, span-place needed (a + block_hdr + b.size) bs)

-- The block with the payload `p` is marked free.
unfoldable pub release : ℕ → ℕ → List Segment → List Segment
release p a [] = []
release p a (b ∷ bs) =
    let rest = release p (a + block_hdr + b.size) bs in
    if a + block_hdr == p then record { size = b.size; free = true } ∷ bs else b ∷ rest

-- A payload in use lies behind the first header.
pub used-above :
    (a p n : ℕ) (bs : List Segment) (xs ys : List (ℕ × ℕ))
    → used a bs ≡ xs ++ (p, n) ∷ ys
    → a + block_hdr ≤ p
used-above a p n [] [] ys e = ground arith
used-above a p n [] (x ∷ xs) ys e = ground arith
used-above a p n (b ∷ bs) [] ys e = ground (arith, used-above (a + block_hdr + b.size) p n bs [] ys)
used-above a p n (b ∷ bs) (x ∷ xs) ys e = ground (
  arith,
  used-above (a + block_hdr + b.size) p n bs (x ∷ xs) ys,
  used-above (a + block_hdr + b.size) p n bs xs ys,
)

-- Releasing a payload in use takes it away, and no other.
pub used-release :
    (a p n : ℕ) (bs : List Segment) (xs ys : List (ℕ × ℕ))
    → used a bs ≡ xs ++ (p, n) ∷ ys
    → used a (release p a bs) ≡ xs ++ ys
unfolding release
used-release a p n [] [] ys e = ground arith
used-release a p n [] (x ∷ xs) ys e = ground arith
used-release a p n (b ∷ bs) [] ys e = ground (
  arith,
  used-release (a + block_hdr + b.size) p n bs [] ys,
  used-above (a + block_hdr + b.size) p n bs [] ys,
)
used-release a p n (b ∷ bs) (x ∷ xs) ys e = ground (
  arith,
  used-release (a + block_hdr + b.size) p n bs (x ∷ xs) ys,
  used-release (a + block_hdr + b.size) p n bs xs ys,
  used-above (a + block_hdr + b.size) p n bs (x ∷ xs) ys,
  used-above (a + block_hdr + b.size) p n bs xs ys,
)

pub span-release : (p a : ℕ) (bs : List Segment) → span (release p a bs) ≡ span bs
unfolding release
span-release p a [] = refl
span-release p a (b ∷ bs) = ground (arith, span-release p (a + block_hdr + b.size) bs)
