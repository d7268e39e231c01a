-- ===== src/Shell/Recall.antt =====
-- The history of src/apps/shell.cpp as a list of lines, the last one first.
use rp4_demo.Base.{
  ℕ, ◌+◌, ◌-◌, ◌%◌, ◌≤◌, ◌<◌, ◌≡◌, ◌≢◌, refl, ap, ◌∙◌, arith, true, false, ◌&&◌, [], ltb, leb, ◌==◌,
  if◌then◌else◌, Text, text_eq, take, get_or, length, min, length-set, Bool-cases, inl, inr, ◌⊎◌,
}
use rp4_demo.MemFs.{c_string}
use rp4_demo.MemFs.Table.{c_string-append}
use rp4_demo.Dsp.State.Lines.{get_or-set_self, get_or-set_ne}
use rp4_demo.Shell.{History, max_entries, max_line, recall, write_line, pushed, push}

pub record IsValid (h : History) : Type 0 where
  pub slots : length h.entries ≡ max_entries
  pub inside : h.head < max_entries
  pub bounded : h.count ≤ max_entries

pushed-IsValid : (line : Text) (h : History) → IsValid h → IsValid (pushed line h)
pushed-IsValid line h valid = record {
  slots = length-set h.entries h.head _ ∙ valid.slots;
  inside = omega arith;
  bounded = ground (arith, valid.bounded);
}

recall-pushed_zero :
    (line : Text) (h : History)
    → IsValid h
    → recall 0 (pushed line h) ≡ c_string (take (min (length line) (max_line - 1)) line)
unfolding recall
recall-pushed_zero line h valid =
    let some_line : leb (pushed line h).count 0 ≡ false = ground (arith, valid.bounded) in
    let here : ((h.head + 1) % max_entries + max_entries - 1 - 0) % max_entries ≡ h.head =
      omega (arith, valid.inside) in
    rw (some_line, here)
      (ap c_string (
          get_or-set_self h.entries h.head (write_line line (get_or h.entries h.head [])) []
            (omega (arith, valid.inside, valid.slots)))
        ∙ c_string-append (take (min (length line) (max_line - 1)) line) _)

ltb→lt : (a b : ℕ) → ltb a b ≡ true → a < b
ltb→lt a b h = ground (arith, h)

recall-pushed_suc :
    (k : ℕ) (line : Text) (h : History)
    → IsValid h
    → recall (k + 1) (pushed line h) ≡ (if ltb k 31 then recall k h else [])
unfolding recall
recall-pushed_suc k line h valid = elim (Bool-cases (leb (pushed line h).count (k + 1))) [
  | inl beyond ↦ elim (Bool-cases (ltb k 31)) [
    | inl near ↦
        let unused : leb h.count k ≡ true = ground (arith, beyond, near, valid.bounded) in
        rw (beyond, near, unused) refl
    | inr far ↦ rw (beyond, far) refl
  ]
  | inr within ↦
      let near : ltb k 31 ≡ true = ground (arith, within, valid.bounded) in
      let used : leb h.count k ≡ false = ground (arith, within, valid.bounded) in
      let back : ((h.head + 1) % max_entries + max_entries - 1 - (k + 1)) % max_entries
          ≡ (h.head + max_entries - 1 - k) % max_entries =
        omega (arith, valid.inside, (ltb→lt k 31 near)) in
      let other : h.head ≢ (h.head + max_entries - 1 - k) % max_entries =
        λ e. omega (arith, valid.inside, e, (ltb→lt k 31 near)) in
      rw (within, near, used, back)
        (ap c_string (
          get_or-set_ne h.entries h.head ((h.head + max_entries - 1 - k) % max_entries)
            (write_line line (get_or h.entries h.head [])) [] other))
]

-- In a valid state `push` keeps the state valid. An empty line and a line that `get(0)` gives already
-- change nothing. Any other line is then the one that `get(0)` gives, as far as 127 bytes and no NUL go,
-- and `get(k + 1)` gives what `get(k)` gave; the line at 31 is lost.
pub push_lem :
    (line : Text) (h : History) (k : ℕ)
    → IsValid h
    → IsValid (push line h)
      × (((push line h ≡ h)
            × ((length line ≡ 0) ⊎ ((0 < h.count) × (text_eq (recall 0 h) line ≡ true))))
          ⊎ ((length line ≢ 0)
              × (¬ ((0 < h.count) × (text_eq (recall 0 h) line ≡ true)))
              × (recall 0 (push line h) ≡ c_string (take (min (length line) (max_line - 1)) line))
              × (recall (k + 1) (push line h) ≡ (if ltb k 31 then recall k h else []))))
unfolding push
push_lem line h k valid = elim (Bool-cases (length line == 0)) [
  | inl empty ↦ rw empty (valid, inl (refl, inl (ground (arith, empty))))
  | inr filled ↦ elim (Bool-cases (ltb 0 h.count && text_eq (recall 0 h) line)) [
    | inl again ↦ rw (filled, again) (valid, inl (refl, inr (ground (arith, again))))
    | inr fresh ↦
        rw (filled, fresh)
          (
            pushed-IsValid line h valid,
            inr (
              ground (arith, filled),
              (λ same. ground (arith, fresh, same.0, same.1)),
              recall-pushed_zero line h valid,
              recall-pushed_suc k line h valid,
            ),
          )
  ]
]
