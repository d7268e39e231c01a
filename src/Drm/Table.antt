-- ===== src/Drm/Table.antt =====
-- The table of buffer objects (src/apps/drmmgr.cpp): lookups after a slot is filled or cleared.
use rp4_demo.Base.{
  ℕ, ◌≡◌, ◌≢◌, refl, true, none, some, List, [], ◌∷◌, ◌==◌, if◌then◌else◌, arith, Option-cases, inl,
  inr, All, length,
}
use rp4_demo.Drm.{BufferObject, fill_slot, bo_find, clear_slot}

-- No slot is left.
abbrev pub AllInUse : List BufferObject → Type 0
AllInUse = All (λ b. b.in_use ≡ true)

pub fill_slot_full : (n : BufferObject) (t : List BufferObject) → AllInUse t → fill_slot n t ≡ none
unfolding fill_slot
fill_slot_full n [] h = refl
fill_slot_full n (b ∷ bs) h = rw (h.0, fill_slot_full n bs h.1)

pub fill_slot-none : (n : BufferObject) (t : List BufferObject) → fill_slot n t ≡ none → AllInUse t
unfolding fill_slot
fill_slot-none n [] h = tt
fill_slot-none n (b ∷ bs) h = elim (Option-cases (fill_slot n bs)) [
  | inl e ↦ (ground (arith, e), fill_slot-none n bs e)
  | inr (t, e) ↦ absurd (ground (arith, e))
]

pub fill_slot-some :
    (n : BufferObject) (t : List BufferObject) {t' : List BufferObject}
    → fill_slot n t ≡ some t'
    → ¬ AllInUse t
fill_slot-some n t h = λ full. ground (arith, fill_slot_full n t full)

pub length-fill_slot :
    (n : BufferObject) (t : List BufferObject) {t' : List BufferObject}
    → fill_slot n t ≡ some t'
    → length t' ≡ length t
unfolding fill_slot
length-fill_slot n [] h = ground arith
length-fill_slot n (b ∷ bs) h = elim (Option-cases (fill_slot n bs)) [
  | inl e ↦ ground (arith, e)
  | inr (t, e) ↦ ground (arith, e, length-fill_slot n bs e)
]

-- A new handle is found at its object, and every other handle as before.
pub bo_find-fill_slot :
    (n : BufferObject) (handle : ℕ) (t : List BufferObject) {t' : List BufferObject}
    → n.in_use ≡ true
    → bo_find n.handle t ≡ none
    → fill_slot n t ≡ some t'
    → bo_find handle t' ≡ (if n.handle == handle then some n else bo_find handle t)
unfolding fill_slot bo_find
bo_find-fill_slot n handle [] u fresh h = ground arith
bo_find-fill_slot n handle (b ∷ bs) u fresh h = elim (Option-cases (fill_slot n bs)) [
  | inl e ↦ ground (arith, e)
  | inr (t, e) ↦ ground (arith, e, bo_find-fill_slot n handle bs {t' = t} u)
]

-- A handle that only one object in use has is not found once that object is cleared; every other
-- handle is found as before.
pub bo_find-clear_slot_ne :
    (handle other : ℕ) (t : List BufferObject)
    → handle ≢ other
    → bo_find other (clear_slot handle t) ≡ bo_find other t
unfolding clear_slot bo_find
bo_find-clear_slot_ne handle other [] ne = refl
bo_find-clear_slot_ne handle other (b ∷ bs) ne =
    ground (arith, bo_find-clear_slot_ne handle other bs ne)

pub length-clear_slot :
    (handle : ℕ) (t : List BufferObject) → length (clear_slot handle t) ≡ length t
unfolding clear_slot
length-clear_slot handle [] = refl
length-clear_slot handle (b ∷ bs) = ground (arith, length-clear_slot handle bs)
