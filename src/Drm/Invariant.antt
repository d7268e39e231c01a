-- ===== src/Drm/Invariant.antt =====
-- The invariant of the buffer objects (src/apps/drmmgr.cpp): page-aligned, inside the pool, disjoint.
use rp4_demo.Base.{
  ℕ, zero, suc, ◌+◌, ◌%◌, ◌≤◌, ◌<◌, ◌≡◌, ◌≢◌, refl, true, false, ◌&&◌, some, List, [], ◌∷◌, ◌==◌,
  arith, Bool-cases, Option-cases, inl, inr, ◌⊎◌, All, length, ltb, replicate, subst, All-map, ◌∙◌,
  length-replicate,
}
use rp4_demo.Hal.{u32_mod}
use rp4_demo.Drm.{
  BufferObject, Drm, fill_slot, bo_find, clear_slot, bo_alloc, bo_free, next_bo, page_align,
  max_bos, bo_pool_base, bo_pool_size, initial, empty_bo,
}
use rp4_demo.Drm.Table.{length-fill_slot, length-clear_slot}

-- An object in use has a handle below `next` and pages of the pool below `top`.
pub record Fits (next top : ℕ) (b : BufferObject) : Type 0 where
  pub positive : 0 < b.handle
  pub handed_out : b.handle < next
  pub in_pool : bo_pool_base ≤ b.phys_addr
  pub below : b.phys_addr + b.size ≤ top
  pub aligned : (b.phys_addr % 4096 ≡ 0) × (b.size % 4096 ≡ 0)
  pub identity : b.v3d_addr ≡ b.phys_addr

-- Two objects have different handles and no byte in common.
abbrev pub Apart : BufferObject → BufferObject → Type 0
Apart b c =
    (b.handle ≢ c.handle)
    × ((b.phys_addr + b.size ≤ c.phys_addr) ⊎ (c.phys_addr + c.size ≤ b.phys_addr))

abbrev pub Used : (BufferObject → Type 0) → BufferObject → Type 0
Used P b = b.in_use ≡ true → P b

abbrev pub AllApart : List BufferObject → Type 0
AllApart [] = Unit
AllApart (b ∷ bs) = All (λ c. b.in_use ≡ true → c.in_use ≡ true → Apart b c) bs × AllApart bs

pub record IsValid (s : Drm) : Type 0 where
  pub objects : All (Used (Fits s.next_handle s.bo_pool_next)) s.bo_table
  pub apart : AllApart s.bo_table
  pub slots : length s.bo_table ≡ max_bos
  pub first_handle : 0 < s.next_handle
  pub pool_start : bo_pool_base ≤ s.bo_pool_next
  pub pool_end : s.bo_pool_next ≤ bo_pool_base + bo_pool_size
  pub pool_aligned : s.bo_pool_next % 4096 ≡ 0

-- A slot that is filled or cleared keeps what holds of every slot.
All-fill_slot :
    (P : BufferObject → Type 0) (n : BufferObject) (t : List BufferObject) {t' : List BufferObject}
    → P n
    → All P t
    → fill_slot n t ≡ some t'
    → All P t'
unfolding fill_slot
All-fill_slot P n [] pn h e = absurd (ground arith)
All-fill_slot P n (b ∷ bs) {t'} pn h e = elim (Bool-cases b.in_use) [
  | inr open_slot ↦ let q : n ∷ bs ≡ t' = ground arith in subst (All P) q (pn, h.1)
  | inl taken ↦ elim (Option-cases (fill_slot n bs)) [
    | inl r ↦ absurd (ground (arith, r))
    | inr (t, r) ↦
        let q : b ∷ t ≡ t' = ground (arith, r) in
        subst (All P) q (h.0, All-fill_slot P n bs pn h.1 r)
  ]
]

AllApart-fill_slot :
    (n : BufferObject) (t : List BufferObject) {t' : List BufferObject}
    → All (λ b. b.in_use ≡ true → Apart b n × Apart n b) t
    → AllApart t
    → fill_slot n t ≡ some t'
    → AllApart t'
unfolding fill_slot
AllApart-fill_slot n [] new h e = absurd (ground arith)
AllApart-fill_slot n (b ∷ bs) {t'} new h e = elim (Bool-cases b.in_use) [
  | inr open_slot ↦
      let q : n ∷ bs ≡ t' = ground arith in
      subst AllApart q (All-map bs (λ c p. λ _ u. (p u).1) new.1, h.1)
  | inl taken ↦ elim (Option-cases (fill_slot n bs)) [
    | inl r ↦ absurd (ground (arith, r))
    | inr (t, r) ↦
        let q : b ∷ t ≡ t' = ground (arith, r) in
        subst AllApart q
          (All-fill_slot _ n bs (λ u _. (new.0 u).0) h.0 r, AllApart-fill_slot n bs new.1 h.1 r)
  ]
]

All-clear_slot :
    (P : BufferObject → Type 0) (handle : ℕ) (t : List BufferObject)
    → ((b : BufferObject) → P b → P (record b { in_use = false }))
    → All P t
    → All P (clear_slot handle t)
unfolding clear_slot
All-clear_slot P handle [] cleared h = tt
All-clear_slot P handle (b ∷ bs) cleared h = elim (Bool-cases (b.in_use && b.handle == handle)) [
  | inl here ↦ rw here (cleared b h.0, h.1)
  | inr other ↦ rw other (h.0, All-clear_slot P handle bs cleared h.1)
]

AllApart-clear_slot :
    (handle : ℕ) (t : List BufferObject) → AllApart t → AllApart (clear_slot handle t)
unfolding clear_slot
AllApart-clear_slot handle [] h = tt
AllApart-clear_slot handle (b ∷ bs) h = elim (Bool-cases (b.in_use && b.handle == handle)) [
  | inl here ↦ rw here (All-map bs (λ c p. λ u v. absurd (ground arith)) h.0, h.1)
  | inr other ↦ rw other (
    All-clear_slot _ handle bs (λ c p. λ u v. absurd (ground arith)) h.0,
    AllApart-clear_slot handle bs h.1,
  )
]

-- What was handed out below one mark was handed out below a later one.
Fits-weaken :
    (next top next' top' : ℕ) (t : List BufferObject)
    → next ≤ next'
    → top ≤ top'
    → All (Used (Fits next top)) t
    → All (Used (Fits next' top')) t
Fits-weaken next top next' top' t h k = All-map t (λ b f u. record {
  positive = (f u).positive;
  handed_out = omega (arith, (f u).handed_out);
  in_pool = (f u).in_pool;
  below = omega (arith, (f u).below);
  aligned = (f u).aligned;
  identity = (f u).identity;
})

page_align_aligned : (size : ℕ) → page_align size % 4096 ≡ 0
unfolding page_align
page_align_aligned size = omega arith

-- `bo_alloc` keeps the invariant, where the handles have not run out.
pub bo_alloc-IsValid :
    (size : ℕ) (s : Drm) → IsValid s → s.next_handle + 1 < u32_mod → IsValid (bo_alloc size s).1
unfolding bo_alloc
bo_alloc-IsValid size s v room =
    elim (Bool-cases (ltb (bo_pool_base + bo_pool_size) (s.bo_pool_next + page_align size))) [
      | inl over ↦ rw (bo_alloc, over) v
      | inr fits ↦ elim (Option-cases (fill_slot (next_bo size s) s.bo_table)) [
        | inl full ↦ rw (bo_alloc, fits, full) v
        | inr (t, filled) ↦
            let same : (s.next_handle + 1) % u32_mod ≡ s.next_handle + 1 = omega arith in
            let top : s.bo_pool_next + page_align size ≤ bo_pool_base + bo_pool_size =
              ground arith in
            let new : Fits (s.next_handle + 1) (s.bo_pool_next + page_align size) (next_bo size s) =
              record {
                positive = v.first_handle;
                handed_out = omega arith;
                in_pool = v.pool_start;
                below = omega arith;
                aligned = (v.pool_aligned, page_align_aligned size);
                identity = refl;
              } in
            rw (bo_alloc, fits, filled, same)
              (record {
                objects =
                    All-fill_slot _ (next_bo size s) s.bo_table (λ u. new)
                      (Fits-weaken s.next_handle s.bo_pool_next (s.next_handle + 1)
                        (s.bo_pool_next + page_align size) s.bo_table (omega arith) (omega arith)
                        v.objects)
                      filled;
                apart =
                    AllApart-fill_slot (next_bo size s) s.bo_table
                      (All-map s.bo_table
                        (λ b f u.
                          let g = f u in
                          (
                            (omega (arith, g.handed_out), inl g.below),
                            (omega (arith, g.handed_out), inr g.below),
                          ))
                        v.objects)
                      v.apart filled;
                slots = length-fill_slot (next_bo size s) s.bo_table filled ∙ v.slots;
                first_handle = omega arith;
                pool_start = omega arith;
                pool_end = top;
                pool_aligned = omega (arith, page_align_aligned size);
              })
      ]
    ]

-- `bo_free` keeps the invariant.
pub bo_free-IsValid : (handle : ℕ) (s : Drm) → IsValid s → IsValid (bo_free handle s).1
unfolding bo_free
bo_free-IsValid handle s v = elim (Option-cases (bo_find handle s.bo_table)) [
  | inl lost ↦ rw (bo_free, lost) v
  | inr (b, found) ↦
      rw (bo_free, found)
        (record {
          objects = All-clear_slot _ handle s.bo_table (λ c p u. absurd (ground arith)) v.objects;
          apart = AllApart-clear_slot handle s.bo_table v.apart;
          slots = length-clear_slot handle s.bo_table ∙ v.slots;
          first_handle = v.first_handle;
          pool_start = v.pool_start;
          pool_end = v.pool_end;
          pool_aligned = v.pool_aligned;
        })
]

All-replicate : (P : BufferObject → Type 0) (n : ℕ) (b : BufferObject) → P b → All P (replicate n b)
All-replicate P zero b h = tt
All-replicate P (suc n) b h = (h, All-replicate P n b h)

AllApart-replicate : (n : ℕ) (b : BufferObject) → b.in_use ≡ false → AllApart (replicate n b)
AllApart-replicate zero b h = tt
AllApart-replicate (suc n) b h =
    (All-replicate _ n b (λ u. absurd (ground arith)), AllApart-replicate n b h)

-- The tables as they are at the start.
pub initial-IsValid : (slots : ℕ) → slots ≡ max_bos → IsValid (initial slots)
initial-IsValid slots h = record {
  objects = All-replicate (Used (Fits 1 bo_pool_base)) slots empty_bo (λ u. absurd (ground arith));
  apart = AllApart-replicate slots empty_bo refl;
  slots = length-replicate slots empty_bo ∙ h;
  first_handle = omega arith;
  pool_start = omega arith;
  pool_end = omega arith;
  pool_aligned = refl;
}

-- A call of the allocator.
pub data Call : Type 0 where
  create close : ℕ → Call

abbrev pub step : Call → Drm → Drm
step (create size) s = (bo_alloc size s).1
step (close handle) s = (bo_free handle s).1

abbrev pub ioctls : List Call → Drm → Drm
ioctls [] s = s
ioctls (c ∷ cs) s = ioctls cs (step c s)

next_handle-step :
    (c : Call) (s : Drm) → s.next_handle + 1 < u32_mod → (step c s).next_handle ≤ s.next_handle + 1
unfolding bo_alloc bo_free
next_handle-step (create size) s h = elim (Option-cases (fill_slot (next_bo size s) s.bo_table)) [
  | inl e ↦ ground (arith, e)
  | inr (t, e) ↦ ground (arith, e)
]
next_handle-step (close handle) s h = elim (Option-cases (bo_find handle s.bo_table)) [
  | inl e ↦ ground (arith, e)
  | inr (b, e) ↦ ground (arith, e)
]

step-IsValid : (c : Call) (s : Drm) → IsValid s → s.next_handle + 1 < u32_mod → IsValid (step c s)
step-IsValid (create size) s v room = bo_alloc-IsValid size s v room
step-IsValid (close handle) s v room = bo_free-IsValid handle s v

-- Over any calls that do not use up the 32-bit handles: every object in use lies in the pool, below
-- the next free address and on whole pages, and no two objects in use share a handle or a byte.
pub ioctls-IsValid :
    (cs : List Call) (s : Drm)
    → IsValid s
    → s.next_handle + length cs < u32_mod
    → IsValid (ioctls cs s)
ioctls-IsValid [] s v room = v
ioctls-IsValid (c ∷ cs) s v room =
    ioctls-IsValid cs (step c s) (step-IsValid c s v (omega arith))
      (omega (arith, next_handle-step c s (omega arith)))
