-- ===== src/Arena/Segments.antt =====
-- The chain from `free_list` as a list of blocks that tile a range of addresses.
use rp4_demo.Base.{ℕ, ◌+◌, ◌*◌, ◌≤◌, ◌<◌, ◌≡◌, Bool, List, [], ◌∷◌, arith, length}
use rp4_demo.Arena.{Block, Memory, write, block_hdr}

-- A block as its size and its flag.
pub record Segment : Type 0 where
  pub size : ℕ
  pub free : Bool

-- What a `next` pointer to the chain `bs` at `a` holds.
abbrev pub link : ℕ → List Segment → ℕ
link a [] = 0
link a (b ∷ bs) = a

-- The headers from `a` on are those of `bs`, each block ending where the next one starts.
abbrev pub Tiles : Memory → ℕ → List Segment → Type 0
Tiles m a [] = Unit
Tiles m a (b ∷ bs) =
    (m a ≡ record { size = b.size; next = link (a + block_hdr + b.size) bs; free = b.free })
    × Tiles m (a + block_hdr + b.size) bs

-- The bytes that the blocks take up, headers included.
abbrev pub span : List Segment → ℕ
span [] = 0
span (b ∷ bs) = block_hdr + b.size + span bs

pub length-le-span : (bs : List Segment) → 24 * length bs ≤ span bs
length-le-span [] = omega arith
length-le-span (b ∷ bs) = omega (arith, length-le-span bs)

-- A write below the chain leaves it alone.
pub Tiles-write :
    (m : Memory) (a x : ℕ) (b : Block) (bs : List Segment)
    → x < a
    → Tiles m a bs
    → Tiles (write m x b) a bs
Tiles-write m a x b [] h t = tt
Tiles-write m a x b (c ∷ cs) h t =
    (ground arith, Tiles-write m (a + block_hdr + c.size) x b cs (omega arith) t.1)

-- Two stores that agree from `a` on hold the same chain.
pub Tiles-agree :
    (m n : Memory) (a : ℕ) (bs : List Segment)
    → ((x : ℕ) → a ≤ x → n x ≡ m x)
    → Tiles m a bs
    → Tiles n a bs
Tiles-agree m n a [] h t = tt
Tiles-agree m n a (c ∷ cs) h t = (
  rw (h a (omega arith)) t.0,
  Tiles-agree m n (a + block_hdr + c.size) cs (λ x p. h x (omega arith)) t.1,
)
