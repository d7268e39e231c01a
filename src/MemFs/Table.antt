-- ===== src/MemFs/Table.antt =====
-- The table of src/apps/memfsmgr.cpp as a list of files: names, insertion at the end, removal.
use rp4_demo.Base.{
  ℕ, zero, suc, ◌+◌, ◌-◌, ◌≤◌, ◌<◌, ◌≡◌, refl, ap, ◌∙◌, none, some, List, [], ◌∷◌, ◌++◌,
  if◌then◌else◌, Text, text_eq, take, set, get_or, length, min, Without, arith, Bool-cases,
  Option-cases, inl, inr, length-set, ◌⊎◌, ◌==◌,
}
use rp4_demo.MemFs.{
  MemFile, MemFs, max_files, no_file, c_string, write_name, find_in, shift_down, index_in,
  split_space,
}

-- A text without a space is not split; any other is split at its first space.
pub split_space-cases :
    (t : Text)
    → (Without b' ' t × (split_space t ≡ (t, none)))
      ⊎ ((a b : Text) × (t ≡ a ++ b' ' ∷ b) × Without b' ' a × (split_space t ≡ (a, some b)))
unfolding split_space
split_space-cases [] = inl (tt, refl)
split_space-cases (c ∷ cs) = elim (Bool-cases (c == b' ')) [
  | inl here ↦
      let e : c ≡ b' ' = ground (arith, here) in inr ([], cs, ap (λ d. d ∷ cs) e, tt, rw here refl)
  | inr other ↦ elim (split_space-cases cs) [
    | inl (plain, e) ↦ inl ((other, plain), rw (other, e) refl)
    | inr (a, b, e, plain, f) ↦ inr (c ∷ a, b, ap (◌∷◌ c) e, (other, plain), rw (other, f) refl)
  ]
]

-- The files in use.
abbrev pub entries : MemFs → List MemFile
entries s = take s.file_count s.files

pub record IsValid (s : MemFs) : Type 0 where
  pub slots : length s.files ≡ max_files
  pub bounded : s.file_count ≤ max_files

pub c_string-append : (xs ys : Text) → c_string (xs ++ 0 ∷ ys) ≡ c_string xs
unfolding c_string
c_string-append [] ys = refl
c_string-append (x ∷ xs) ys = ground (arith, c_string-append xs ys)

-- A slot shows its name up to the first NUL, and at most 63 bytes of it.
pub c_string-write_name :
    (old name : Text) → c_string (write_name old name) ≡ c_string (take (min (length name) 63) name)
unfolding write_name
c_string-write_name old name = c_string-append (take (min (length name) 63) name) _

pub c_string_of_no_nul : (xs : Text) → Without 0 xs → c_string xs ≡ xs
unfolding c_string
c_string_of_no_nul [] h = refl
c_string_of_no_nul (x ∷ xs) h = rw (h.0, c_string_of_no_nul xs h.1)

pub find_in-append :
    (q : Text) (fs : List MemFile) (f : MemFile)
    → find_in q (fs ++ f ∷ []) ≡ elim (find_in q fs) [
      | some g ↦ some g
      | none ↦ if text_eq (c_string f.name) q then some f else none
    ]
unfolding find_in
find_in-append q [] f = refl
find_in-append q (g ∷ fs) f = elim (Bool-cases (text_eq (c_string g.name) q)) [
  | inl here ↦ rw here
  | inr other ↦ rw other (find_in-append q fs f)
]

-- Writing the slot behind the files in use adds a file at the end.
pub take-set :
    (n : ℕ) (fs : List MemFile) (f : MemFile)
    → n < length fs
    → take (n + 1) (set fs n f) ≡ take n fs ++ f ∷ []
take-set n [] f h = absurd (omega arith)
take-set zero (g ∷ fs) f h = ground arith
take-set (suc n) (g ∷ fs) f h =
    let e : suc n + 1 ≡ suc (n + 1) = omega arith in
    rw e (ap (◌∷◌ g) (take-set n fs f (omega arith)))

-- The list without the first file of the name.
abbrev pub drop_first : Text → List MemFile → List MemFile
drop_first name [] = []
drop_first name (f ∷ fs) = if text_eq (c_string f.name) name then fs else f ∷ drop_first name fs

shift_down-cons :
    (n j : ℕ) (g : MemFile) (fs : List MemFile)
    → shift_down n (suc j) (g ∷ fs) ≡ g ∷ shift_down n j fs
unfolding shift_down
shift_down-cons zero j g fs = refl
shift_down-cons (suc n) j g fs =
    let e : suc j + 1 ≡ suc (j + 1) = omega arith in rw e (shift_down-cons n (j + 1) g _)

pub length-shift_down : (n j : ℕ) (fs : List MemFile) → length (shift_down n j fs) ≡ length fs
unfolding shift_down
length-shift_down zero j fs = refl
length-shift_down (suc n) j fs =
    length-shift_down n (j + 1) _ ∙ length-set fs j (get_or fs (j + 1) no_file)

take-shift_down :
    (n : ℕ) (g : MemFile) (fs : List MemFile)
    → n ≤ length fs
    → take n (shift_down n 0 (g ∷ fs)) ≡ take n fs
unfolding shift_down
take-shift_down zero g fs h = refl
take-shift_down (suc n) g [] h = absurd (omega arith)
take-shift_down (suc n) g (x ∷ fs) h =
    ap (take (suc n)) (shift_down-cons n 0 x (x ∷ fs))
    ∙ ap (◌∷◌ x) (take-shift_down n x fs (omega arith))

-- Moving the files behind a found one down takes that one out of the list.
pub take-shift_down-drop_first :
    (name : Text) (n i : ℕ) (fs : List MemFile)
    → suc n ≤ length fs
    → index_in name (take (suc n) fs) ≡ some i
    → (i ≤ n) × (take n (shift_down (n - i) i fs) ≡ drop_first name (take (suc n) fs))
unfolding index_in
take-shift_down-drop_first name n i [] h e = absurd (omega arith)
take-shift_down-drop_first name zero i (f ∷ fs) h e =
    elim (Bool-cases (text_eq (c_string f.name) name)) [
      | inl here ↦ rw here (ground arith, refl)
      | inr other ↦ absurd (ground arith)
    ]
take-shift_down-drop_first name (suc n) i (f ∷ fs) h e =
    elim (Bool-cases (text_eq (c_string f.name) name)) [
      | inl here ↦
          let first : i ≡ 0 = ground arith in
          let all : suc n - 0 ≡ suc n = omega arith in
          rw (first, here, all) (omega arith, take-shift_down (suc n) f fs (omega arith))
      | inr other ↦ elim (Option-cases (index_in name (take (suc n) fs))) [
        | inl lost ↦ absurd (ground (arith, lost))
        | inr (j, found) ↦
            let next : i ≡ suc j = ground (arith, found) in
            let (le, same) = take-shift_down-drop_first name n j fs (omega arith) found in
            let d : suc n - suc j ≡ n - j = omega arith in
            rw (next, other, d)
              (omega arith, ap (take (suc n)) (shift_down-cons (n - j) j f fs) ∙ ap (◌∷◌ f) same)
      ]
    ]

-- The same with the number of files in use as the code computes with it.
pub take-shift_down_found :
    (name : Text) (n i : ℕ) (fs : List MemFile)
    → n ≤ length fs
    → index_in name (take n fs) ≡ some i
    → (1 ≤ n) × (take (n - 1) (shift_down (n - 1 - i) i fs) ≡ drop_first name (take n fs))
unfolding index_in
take-shift_down_found name zero i fs h e = absurd (ground arith)
take-shift_down_found name (suc n) i fs h e =
    let d : suc n - 1 ≡ n = omega arith in
    rw d (omega arith, (take-shift_down-drop_first name n i fs h e).1)

pub index_in-none :
    (name : Text) (fs : List MemFile) → index_in name fs ≡ none → find_in name fs ≡ none
unfolding index_in find_in
index_in-none name [] h = refl
index_in-none name (f ∷ fs) h = elim (Option-cases (index_in name fs)) [
  | inl lost ↦ ground (arith, lost, index_in-none name fs)
  | inr (j, found) ↦ ground (arith, found)
]

pub split_space_found :
    (xs ys : Text) → Without b' ' xs → split_space (xs ++ b' ' ∷ ys) ≡ (xs, some ys)
unfolding split_space
split_space_found [] ys h = refl
split_space_found (x ∷ xs) ys h = rw (h.0, split_space_found xs ys h.1)

pub split_space-none : (xs : Text) → Without b' ' xs → split_space xs ≡ (xs, none)
unfolding split_space
split_space-none [] h = refl
split_space-none (x ∷ xs) h = rw (h.0, split_space-none xs h.1)
