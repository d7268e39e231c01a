-- ===== src/Drm/Tests.antt =====
-- Runs of the buffer objects (src/apps/drmmgr.cpp), and their theorems at concrete inputs.
use rp4_demo.Base.{
  ℕ, ◌+◌, ◌%◌, ◌≤◌, ◌<◌, ◌≡◌, ◌≢◌, refl, true, false, none, some, [], ◌∷◌, arith, ◌⊎◌,
}
use rp4_demo.Drm.{
  BufferObject, Drm, done, failed, initial, bo_find, bo_alloc, bo_free, page_align, fill_slot,
  max_bos, bo_pool_base, bo_pool_size, handle_create_bo, handle_mmap_bo, handle_get_bo_offset,
}
use rp4_demo.Hal.{u32_mod}
use rp4_demo.Drm.Table.{AllInUse}
use rp4_demo.Drm.Invariant.{IsValid, initial-IsValid, create, close, ioctls, ioctls-IsValid}
use rp4_demo.Drm.Ioctl.{handle_create_bo_lem, bo_free_lem, handle_create_bo_wraps}

create_runs : (handle_create_bo 5000 (initial max_bos)).0 ≡ done (1, bo_pool_base)
unfolding handle_create_bo bo_alloc page_align fill_slot
create_runs = refl

abbrev start : Drm
start = initial max_bos

start-IsValid : IsValid start
start-IsValid = initial-IsValid max_bos refl

ioctls-IsValid_example :
    IsValid (ioctls (create 5000 ∷ create 1 ∷ close 1 ∷ create 70000 ∷ []) start)
ioctls-IsValid_example =
    ioctls-IsValid (create 5000 ∷ create 1 ∷ close 1 ∷ create 70000 ∷ []) start start-IsValid
      (omega arith)

handle_create_bo_lem_example :
    ((handle_create_bo 5000 start ≡ (failed, start))
      × ((bo_pool_base + bo_pool_size < bo_pool_base + page_align 5000) ⊎ AllInUse start.bo_table))
    ⊎ ((bo_pool_base + page_align 5000 ≤ bo_pool_base + bo_pool_size)
        × (¬ AllInUse start.bo_table)
        × (offset : ℕ) × (s' : Drm) × (handle_create_bo 5000 start ≡ (done (1, offset), s'))
        × (handle_get_bo_offset 1 s' ≡ done offset)
        × (page_align 5000 ≢ 0 → handle_mmap_bo 1 s' ≡ done offset)
        × (handle_mmap_bo 1 start ≡ failed)
        × ((q : ℕ)
            → q ≢ 1
            → (handle_get_bo_offset q s' ≡ handle_get_bo_offset q start)
              × (handle_mmap_bo q s' ≡ handle_mmap_bo q start)))
handle_create_bo_lem_example = handle_create_bo_lem 5000 start start-IsValid

bo_free_lem_example :
    ((bo_find 7 start.bo_table ≡ none) × (bo_free 7 start ≡ (false, start)))
    ⊎ ((b : BufferObject) × (bo_find 7 start.bo_table ≡ some b)
        × ((bo_free 7 start).0 ≡ true)
        × (bo_find 7 (bo_free 7 start).1.bo_table ≡ none)
        × ((q : ℕ) → 7 ≢ q → bo_find q (bo_free 7 start).1.bo_table ≡ bo_find q start.bo_table)
        × ((bo_free 7 start).1.bo_pool_next ≡ bo_pool_base))
bo_free_lem_example = bo_free_lem 7 start start-IsValid

-- The first slot is free at the start.
start_free : ¬ AllInUse start.bo_table
start_free full = ground (arith, full.0)

handle_create_bo_wraps_example :
    (s' : Drm) × (handle_create_bo 0xFFFFF001 start ≡ (done (1, bo_pool_base % u32_mod), s'))
    × (s'.bo_pool_next ≡ bo_pool_base)
handle_create_bo_wraps_example =
    handle_create_bo_wraps 0xFFFFF001 start start-IsValid (omega arith) (omega arith) start_free
