-- ===== src/Drm/Ioctl.antt =====
-- What the ioctl handlers answer (src/apps/drmmgr.cpp).
use rp4_demo.Base.{
  ℕ, ◌+◌, ◌%◌, ◌≤◌, ◌<◌, ◌≡◌, ◌≢◌, refl, true, false, ◌&&◌, none, some, List, [], ◌∷◌, ◌==◌, arith,
  Bool-cases, Option-cases, inl, inr, ◌⊎◌, All, ap, ltb,
}
use rp4_demo.Hal.{u32_mod}
use rp4_demo.Drm.{
  BufferObject, Drm, done, failed, fill_slot, bo_find, clear_slot, bo_alloc, bo_free, next_bo,
  page_align, bo_pool_base, bo_pool_size, created, handle_create_bo, handle_mmap_bo,
  handle_get_bo_offset,
}
use rp4_demo.Drm.Table.{
  AllInUse, fill_slot-none, fill_slot-some, bo_find-fill_slot, bo_find-clear_slot_ne,
}
use rp4_demo.Drm.Invariant.{Fits, Apart, Used, AllApart, IsValid}

bo_find_fresh :
    (next top : ℕ) (t : List BufferObject) → All (Used (Fits next top)) t → bo_find next t ≡ none
unfolding bo_find
bo_find_fresh next top [] h = refl
bo_find_fresh next top (b ∷ bs) h = elim (Bool-cases b.in_use) [
  | inl used ↦ ground (arith, (h.0 used).handed_out, bo_find_fresh next top bs h.1)
  | inr unused ↦ ground (arith, bo_find_fresh next top bs h.1)
]

-- The new object, the pool's next address and the next handle after a `bo_alloc` that succeeds.
pub record Created (size : ℕ) (s s' : Drm) : Type 0 where
  pub find_new : bo_find s.next_handle s'.bo_table ≡ some (next_bo size s)
  pub find_other : (q : ℕ) → q ≢ s.next_handle → bo_find q s'.bo_table ≡ bo_find q s.bo_table
  pub pool : s'.bo_pool_next ≡ s.bo_pool_next + page_align size
  pub handles : s'.next_handle ≡ (s.next_handle + 1) % u32_mod

bo_alloc_cases :
    (size : ℕ) (s : Drm)
    → IsValid s
    → ((bo_alloc size s ≡ (none, s))
        × ((bo_pool_base + bo_pool_size < s.bo_pool_next + page_align size) ⊎ AllInUse s.bo_table))
      ⊎ ((s' : Drm) × (bo_alloc size s ≡ (some (next_bo size s), s'))
          × Created size s s'
          × (s.bo_pool_next + page_align size ≤ bo_pool_base + bo_pool_size)
          × ¬ AllInUse s.bo_table)
unfolding bo_alloc
bo_alloc_cases size s v =
    elim (Bool-cases (ltb (bo_pool_base + bo_pool_size) (s.bo_pool_next + page_align size))) [
      | inl over ↦ inl (rw over, inl (ground arith))
      | inr fits ↦ elim (Option-cases (fill_slot (next_bo size s) s.bo_table)) [
        | inl full ↦
            inl (rw (fits, bo_alloc, full), inr (fill_slot-none (next_bo size s) s.bo_table full))
        | inr (t, filled) ↦
            let fresh = bo_find_fresh s.next_handle s.bo_pool_next s.bo_table v.objects in
            let see =
              λ (q : ℕ). bo_find-fill_slot (next_bo size s) q s.bo_table refl fresh filled in
            let s' : Drm = record s {
              bo_table = t;
              next_handle = (s.next_handle + 1) % u32_mod;
              bo_pool_next = s.bo_pool_next + page_align size;
            } in
            inr (
              s',
              rw (fits, bo_alloc, filled) refl,
              record {
                find_new = ground (arith, see s.next_handle);
                find_other = λ q ne. ground (arith, see q);
                pool = refl;
                handles = refl;
              },
              ground arith,
              fill_slot-some (next_bo size s) s.bo_table filled,
            )
      ]
    ]

-- In a valid state DRM_IOCTL_V3D_CREATE_BO fails exactly where the rounded size does not fit behind the
-- pool's next address or no slot is free, and then changes nothing. Otherwise it answers with a new handle and an offset; GET_BO_OFFSET and MMAP_BO
-- answer that handle with the same offset (MMAP_BO where the rounded size is not 0), which failed before,
-- and every other handle as before.
pub handle_create_bo_lem :
    (size : ℕ) (s : Drm)
    → IsValid s
    → ((handle_create_bo size s ≡ (failed, s))
        × ((bo_pool_base + bo_pool_size < s.bo_pool_next + page_align size) ⊎ AllInUse s.bo_table))
      ⊎ ((s.bo_pool_next + page_align size ≤ bo_pool_base + bo_pool_size)
          × (¬ AllInUse s.bo_table)
          × (offset : ℕ) × (s' : Drm) × (handle_create_bo size s
              ≡ (done (s.next_handle, offset), s'))
          × (handle_get_bo_offset s.next_handle s' ≡ done offset)
          × (page_align size ≢ 0 → handle_mmap_bo s.next_handle s' ≡ done offset)
          × (handle_mmap_bo s.next_handle s ≡ failed)
          × ((q : ℕ)
              → q ≢ s.next_handle
              → (handle_get_bo_offset q s' ≡ handle_get_bo_offset q s)
                × (handle_mmap_bo q s' ≡ handle_mmap_bo q s)))
unfolding handle_create_bo handle_get_bo_offset handle_mmap_bo
handle_create_bo_lem size s v = elim (bo_alloc_cases size s v) [
  | inl (run, why) ↦ inl (ap (λ r. (created r.0, r.1)) run, why)
  | inr (s', run, made, room, slot) ↦
      let fresh = bo_find_fresh s.next_handle s.bo_pool_next s.bo_table v.objects in
      inr (
        room,
        slot,
        s.bo_pool_next % u32_mod,
        s',
        ap (λ r. (created r.0, r.1)) run,
        rw (handle_get_bo_offset, made.find_new),
        (λ ne.
            let low : s.bo_pool_next ≡ s.bo_pool_next % u32_mod = omega arith in
            rw (handle_mmap_bo, made.find_new) (ap done low)),
        rw (handle_mmap_bo, fresh),
        λ q ne. (
          rw (handle_get_bo_offset, made.find_other q ne),
          rw (handle_mmap_bo, made.find_other q ne),
        ),
      )
]

clear_slot_gone :
    (handle : ℕ) (t : List BufferObject) → AllApart t → bo_find handle (clear_slot handle t) ≡ none
unfolding clear_slot bo_find
clear_slot_gone handle [] h = refl
clear_slot_gone handle (b ∷ bs) h = elim (Bool-cases (b.in_use && b.handle == handle)) [
  | inl here ↦ rw here (other_gone b handle bs (ground arith) (ground arith) h.0)
  | inr other ↦ rw other (rw other (clear_slot_gone handle bs h.1))
]
  where
    other_gone :
        (b : BufferObject) (handle : ℕ) (bs : List BufferObject)
        → b.in_use ≡ true
        → b.handle ≡ handle
        → All (λ c. b.in_use ≡ true → c.in_use ≡ true → Apart b c) bs
        → bo_find handle bs ≡ none
    other_gone b handle [] u e h = refl
    other_gone b handle (c ∷ cs) u e h = elim (Bool-cases c.in_use) [
      | inl used ↦ ground (arith, (h.0 u used).0, other_gone b handle cs)
      | inr unused ↦ ground (arith, other_gone b handle cs)
    ]

-- In a valid state `bo_free` fails on a handle that is not in use and changes nothing. Otherwise it
-- succeeds: the handle is no longer found, every other handle is found as before, and the pool's next
-- address does not go back, so the pages are not used again.
pub bo_free_lem :
    (handle : ℕ) (s : Drm)
    → IsValid s
    → ((bo_find handle s.bo_table ≡ none) × (bo_free handle s ≡ (false, s)))
      ⊎ ((b : BufferObject) × (bo_find handle s.bo_table ≡ some b)
          × ((bo_free handle s).0 ≡ true)
          × (bo_find handle (bo_free handle s).1.bo_table ≡ none)
          × ((q : ℕ) → handle ≢ q → bo_find q (bo_free handle s).1.bo_table ≡ bo_find q s.bo_table)
          × ((bo_free handle s).1.bo_pool_next ≡ s.bo_pool_next))
unfolding bo_free
bo_free_lem handle s v = elim (Option-cases (bo_find handle s.bo_table)) [
  | inl lost ↦ inl (lost, rw (bo_free, lost))
  | inr (b, found) ↦ inr (
    b,
    found,
    rw (bo_free, found),
    rw (bo_free, found) (clear_slot_gone handle s.bo_table v.apart),
    rw (bo_free, found) (λ q ne. bo_find-clear_slot_ne handle q s.bo_table ne),
    rw (bo_free, found),
  )
]

-- A 32-bit request of more than 2 ^ 32 - 4096 bytes is rounded to 0: in a valid state with a free slot it
-- succeeds and answers with the next handle and the pool's next address in 32 bits, and the next address
-- stays what it was.
pub handle_create_bo_wraps :
    (size : ℕ) (s : Drm)
    → IsValid s
    → u32_mod ≤ size + 0xFFF
    → size < u32_mod
    → ¬ AllInUse s.bo_table
    → (s' : Drm) × (handle_create_bo size s ≡ (done (s.next_handle, s.bo_pool_next % u32_mod), s'))
      × (s'.bo_pool_next ≡ s.bo_pool_next)
unfolding handle_create_bo page_align
handle_create_bo_wraps size s v big small slot =
    let none_left : page_align size ≡ 0 = omega arith in
    elim (bo_alloc_cases size s v) [
      | inl (run, inl over) ↦ absurd (omega (arith, v.pool_end))
      | inl (run, inr full) ↦ absurd (slot full)
      | inr (s', run, made, room, free) ↦
          (s', ap (λ r. (created r.0, r.1)) run, omega (arith, made.pool))
    ]
