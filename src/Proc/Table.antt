-- ===== src/Proc/Table.antt =====
-- The process table (src/proc/proc.cppm): lookups by pid after a change of one process.
use rp4_demo.Base.{
  ℕ, zero, suc, ◌+◌, ◌≡◌, refl, none, some, List, [], ◌∷◌, ◌++◌, ◌==◌, if◌then◌else◌, arith,
  Option-cases, Bool-cases, inl, inr, get_elem?, ◌⊎◌,
}
use mathlib.Core.Option
use rp4_demo.Proc.{Process, find, modify, info, count, is_running}

-- `find` and `info` look for the same process.
pub find-info :
    (pid : ℕ) (ps : List Process)
    → ((find pid ps ≡ none) × (info pid ps ≡ none))
      ⊎ ((i : ℕ) × (p : Process) × (find pid ps ≡ some i)
          × (info pid ps ≡ some p)
          × (get_elem? ps i ≡ some p)
          × (p.pid ≡ pid))
unfolding find info
find-info pid [] = inl (refl, refl)
find-info pid (p ∷ ps) = elim (Bool-cases (p.pid == pid)) [
  | inl here ↦ inr (0, p, rw here, rw here, refl, ground arith)
  | inr other ↦ elim (find-info pid ps) [
    | inl (a, b) ↦ inl (rw (other, a), rw (other, b))
    | inr (i, q, a, b, c, d) ↦ inr (suc i, q, rw (other, a), rw (other, b), c, d)
  ]
]

-- A change of the process that `find` gives is seen at its pid and nowhere else.
pub info-modify :
    (pid q i : ℕ) (f : Process → Process) (ps : List Process)
    → ((p : Process) → (f p).pid ≡ p.pid)
    → find pid ps ≡ some i
    → info q (modify i f ps) ≡ (if pid == q then Option.map f (info pid ps) else info q ps)
unfolding find info modify
info-modify pid q zero f [] keeps h = ground arith
info-modify pid q (suc i) f [] keeps h = ground arith
info-modify pid q zero f (p ∷ ps) keeps h = elim (Option-cases (find pid ps)) [
  | inl gone ↦ ground (arith, keeps p, gone)
  | inr (j, e) ↦ ground (arith, keeps p, e)
]
info-modify pid q (suc i) f (p ∷ ps) keeps h = elim (Option-cases (find pid ps)) [
  | inl gone ↦ ground (arith, gone)
  | inr (j, e) ↦ ground (arith, e, info-modify pid q i f ps keeps)
]

pub info-append :
    (q : ℕ) (ps : List Process) (n : Process)
    → info n.pid ps ≡ none
    → info q (ps ++ n ∷ []) ≡ (if n.pid == q then some n else info q ps)
unfolding info
info-append q [] n h = refl
info-append q (p ∷ ps) n h = ground (arith, info-append q ps n)

pub count-append :
    (ps : List Process) (n : Process)
    → count (ps ++ n ∷ []) ≡ (if is_running n.state then count ps + 1 else count ps)
unfolding count
count-append [] n = ground arith
count-append (p ∷ ps) n = ground (arith, count-append ps n)
