-- ===== src/Arena.antt =====
-- src/boot/allocator.cpp: the block headers of the static arena, as a store of headers by address.
mod Tests
pub mod Segments
pub mod Alloc
pub mod Free
pub mod Live
pub mod Merge
pub mod State
pub mod Calls
use rp4_demo.Base.{
  ℕ, zero, suc, ◌+◌, ◌-◌, ◌*◌, ◌/◌, ◌%◌, ◌^◌, Bool, true, false, not, ◌&&◌, Option, none, some, ltb,
  leb, ◌==◌, if◌then◌else◌,
}

abbrev pub arena_size : ℕ
arena_size = 1024 * 1024

-- `sizeof(Block)`: two words and a flag, padded to the alignment of a word.
abbrev pub block_hdr : ℕ
block_hdr = 24

abbrev pub min_alloc : ℕ
min_alloc = 16

-- `struct Block`; `next` is an address, and 0 is the null pointer.
pub record Block : Type 0 where
  pub size : ℕ
  pub next : ℕ
  pub free : Bool

-- The header at each address.
abbrev pub Memory : Type 0
Memory = ℕ → Block

abbrev pub write : Memory → ℕ → Block → Memory
write m a b = λ x. if x == a then b else m x

-- The file's static variables; `mem` is what `arena` holds.
pub record Arena : Type 0 where
  pub mem : Memory
  pub free_list : ℕ
  pub initialized : Bool

-- `size_t` arithmetic.
abbrev pub size_mod : ℕ
size_mod = 2 ^ 64

-- `& ~15` clears the low four bits.
pub align_up : ℕ → ℕ
align_up n = (n + 15) % size_mod / 16 * 16

-- The split of `arena_alloc`, made where `size >= needed`.
pub split : ℕ → ℕ → Memory → Memory
split needed curr m =
    let remainder = (m curr).size - needed in
    let at = curr + block_hdr + needed in
    if ltb (block_hdr + min_alloc) remainder
    then write
        (write m at (record { size = remainder - block_hdr; next = (m curr).next; free = true }))
        curr (record { size = needed; next = at; free = (m curr).free })
    else m

-- The branch of the search that has found a block.
pub take_block : ℕ → ℕ → Memory → ℕ × Memory
take_block needed curr m =
    let m' = split needed curr m in
    (curr + block_hdr, write m' curr (record (m' curr) { free = false }))

-- The first-fit search, with fuel; `none` means that the fuel ran out. The pointer 0 is null.
pub alloc_loop : ℕ → ℕ → ℕ → Memory → Option (ℕ × Memory)
alloc_loop zero needed curr m = none
alloc_loop (suc f) needed curr m =
    let rest = alloc_loop f needed (m curr).next m in
    if curr == 0
    then some (0, m)
    else if (m curr).free && leb needed (m curr).size
    then some (take_block needed curr m)
    else rest

-- `curr->size += block_hdr + curr->next->size; curr->next = curr->next->next`.
pub join : ℕ → Memory → Memory
join curr m = write m curr (record {
  size = (m curr).size + (block_hdr + (m (m curr).next).size);
  next = (m (m curr).next).next;
  free = (m curr).free;
})

-- The forward pass of `arena_free`, with fuel.
pub coalesce : ℕ → ℕ → Memory → Option Memory
coalesce zero curr m = none
coalesce (suc f) curr m =
    let again = coalesce f curr (join curr m) in
    let onward = coalesce f (m curr).next m in
    if curr == 0
    then some m
    else if (m curr).free && (not ((m curr).next == 0) && (m (m curr).next).free)
    then again
    else onward

-- A walk over the chain takes at most one round for each header that fits in the arena; a round
-- that joins two blocks removes one.
abbrev pub walk_fuel : ℕ
walk_fuel = arena_size

-- `arena` is the address of the static array.
module _ (arena : ℕ) where
  pub arena_init : Arena → Arena
  arena_init s = record {
    mem = write s.mem arena (record { size = arena_size - block_hdr; next = 0; free = true });
    free_list = arena;
    initialized = true;
  }

  -- The pointer that is returned, and the new state. A null result is the trap of the target build.
  pub arena_alloc : ℕ → Arena → Option (ℕ × Arena)
  arena_alloc requested s =
      let s' = if s.initialized then s else arena_init s in
      let asked : ℕ = if requested == 0 then min_alloc else requested in
      elim (alloc_loop walk_fuel (align_up asked) s'.free_list s'.mem) [
        | none ↦ none
        | some (p, m) ↦ some (p, record s' { mem = m })
      ]

-- `ptr - block_hdr` wraps as a pointer does.
pub arena_free : ℕ → Arena → Option Arena
arena_free ptr s =
    let block : ℕ = (ptr + size_mod - block_hdr) % size_mod in
    let m = write s.mem block (record (s.mem block) { free = true }) in
    if ptr == 0 then some s else elim (coalesce walk_fuel s.free_list m) [
      | none ↦ none
      | some m' ↦ some (record s { mem = m' })
    ]
