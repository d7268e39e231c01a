-- ===== src/MemFs/Commands.antt =====
-- What the commands of src/apps/memfsmgr.cpp do to the list of stored files, and what they answer.
use rp4_demo.Base.{
  ℕ, ◌+◌, ◌-◌, ◌^◌, ◌≤◌, ◌<◌, ◌≡◌, refl, ap, ◌∙◌, false, Option, none, some, [], ◌∷◌, ◌++◌, leb,
  if◌then◌else◌, Text, text_eq, take, set, get_or, length, min, Without, Without-append,
  Without-to_string, to_string, parse_digits, parse_digits-to_string, arith, Bool-cases,
  Option-cases, inl, inr, ◌⊎◌, take_of_length-le, length-set, ap₂,
}
use rp4_demo.MemFs.{
  MemFile, MemFs, max_files, no_file, c_string, find_in, find_file, shift_down, index_in,
  split_space, parse_store, stored, update_status, on_store, on_memrm,
}
use rp4_demo.MemFs.Table.{
  entries, IsValid, length-shift_down, c_string-write_name, c_string_of_no_nul, find_in-append,
  take-set, drop_first, take-shift_down_found, index_in-none, split_space_found, split_space-cases,
}

-- A `store` that is obeyed.
on_store_run :
    (v name : Text) (cap bytes : ℕ) (s : MemFs)
    → s.file_count < max_files
    → parse_store v ≡ some (name, cap, bytes)
    → (on_store v s).0 ≡ record {
      files =
          set s.files s.file_count (stored (get_or s.files s.file_count no_file) name cap bytes);
      file_count = s.file_count + 1;
    }
unfolding on_store
on_store_run v name cap bytes s room parsed =
    let more : leb max_files s.file_count ≡ false = ground arith in rw (more, on_store, parsed)

-- What stands behind the name: the digits of the capability and, behind a space, those of the size; the
-- size is 0 where no space follows.
pub Fields : Text → ℕ → ℕ → Type 0
Fields rest cap bytes =
    (Without b' ' rest × (cap ≡ parse_digits 0 rest) × (bytes ≡ 0))
    ⊎ ((c b : Text) × (rest ≡ c ++ b' ' ∷ b)
        × Without b' ' c
        × (cap ≡ parse_digits 0 c)
        × (bytes ≡ parse_digits 0 b))

-- What `parse_store` makes of the two splits.
abbrev of_fields : Text → Text × Option Text → Option (Text × ℕ × ℕ)
of_fields name q =
    some (name, parse_digits 0 q.0, elim q.1 [ none ↦ 0 | some b ↦ parse_digits 0 b ])

abbrev of_split : Text × Option Text → Option (Text × ℕ × ℕ)
of_split p = elim p.1 [ none ↦ none | some rest ↦ of_fields p.0 (split_space rest) ]

parse_store-cases :
    (v : Text)
    → (Without b' ' v × (parse_store v ≡ none))
      ⊎ ((name rest : Text) × (cap bytes : ℕ) × (v ≡ name ++ b' ' ∷ rest)
          × Without b' ' name
          × Fields rest cap bytes
          × (parse_store v ≡ some (name, cap, bytes)))
unfolding parse_store Fields
parse_store-cases v = elim (split_space-cases v) [
  | inl (plain, e) ↦ inl (plain, ap of_split e)
  | inr (name, rest, e, plain, f) ↦ elim (split_space-cases rest) [
    | inl (last, g) ↦ inr (
      name,
      rest,
      parse_digits 0 rest,
      0,
      e,
      plain,
      inl (last, refl, refl),
      ap of_split f ∙ ap (of_fields name) g,
    )
    | inr (c, b, h, first, g) ↦ inr (
      name,
      rest,
      parse_digits 0 c,
      parse_digits 0 b,
      e,
      plain,
      inr (c, b, h, first, refl, refl),
      ap of_split f ∙ ap (of_fields name) g,
    )
  ]
]

-- In a valid state `store` is ignored exactly where the table is full or the text has no space. Otherwise
-- one file is added behind the others: it shows what stands in front of the first space, at most 63 bytes
-- of it up to a NUL; its capability is read from what follows up to the next space, and its size from what
-- stands behind that, or is 0 where there is no second space. Either way the state stays valid.
pub on_store_lem :
    (v : Text) (s : MemFs)
    → IsValid s
    → IsValid (on_store v s).0
      × (((on_store v s ≡ (s, [])) × ((max_files ≤ s.file_count) ⊎ Without b' ' v))
          ⊎ ((name rest : Text) × (f : MemFile) × (s.file_count < max_files)
              × (v ≡ name ++ b' ' ∷ rest)
              × Without b' ' name
              × Fields rest f.cap f.bytes
              × (c_string f.name ≡ c_string (take (min (length name) 63) name))
              × (entries (on_store v s).0 ≡ entries s ++ f ∷ [])))
unfolding on_store stored
on_store_lem v s valid = elim (Bool-cases (leb max_files s.file_count)) [
  | inl full ↦
      let same : on_store v s ≡ (s, []) = rw full in rw same (valid, inl (refl, inl (ground arith)))
  | inr more ↦ elim (parse_store-cases v) [
    | inl (plain, bad) ↦
        let same : on_store v s ≡ (s, []) = rw (more, on_store, bad) in
        rw same (valid, inl (refl, inr plain))
    | inr (name, rest, cap, bytes, split, plain, fields, parsed) ↦
        let f = stored (get_or s.files s.file_count no_file) name cap bytes in
        let room : s.file_count < max_files = ground arith in
        rw (on_store_run v name cap bytes s room parsed) (
          record {
            slots = length-set s.files s.file_count f ∙ valid.slots;
            bounded = ground arith;
          },
          inr (
            name,
            rest,
            f,
            room,
            split,
            plain,
            fields,
            c_string-write_name _ name,
            take-set s.file_count s.files f (ground arith),
          ),
        )
  ]
]

-- The state without the file at an index.
abbrev removed : ℕ → MemFs → MemFs
removed i s = record {
  files = shift_down (s.file_count - 1 - i) i s.files;
  file_count = s.file_count - 1;
}

on_memrm_run :
    (name : Text) (i : ℕ) (s : MemFs)
    → index_in name (entries s) ≡ some i
    → on_memrm name s ≡ (removed i s, update_status (removed i s))
unfolding on_memrm
on_memrm_run name i s found = rw (on_memrm, found) refl

-- In a valid state `memrm` takes the first file of the name out of the list and keeps the order of
-- the others; a name that is not there changes nothing. The state stays valid.
pub on_memrm_lem :
    (name : Text) (s : MemFs)
    → IsValid s
    → IsValid (on_memrm name s).0
      × (((find_file name s ≡ none) × (on_memrm name s ≡ (s, [])))
          ⊎ ((entries (on_memrm name s).0 ≡ drop_first name (entries s))
              × ((on_memrm name s).0.file_count + 1 ≡ s.file_count)
              × ((on_memrm name s).1 ≡ update_status (on_memrm name s).0)))
unfolding on_memrm find_file
on_memrm_lem name s valid = elim (Option-cases (index_in name (entries s))) [
  | inl lost ↦
      let same : on_memrm name s ≡ (s, []) = rw (on_memrm, lost) in
      rw same (valid, inl (index_in-none name (entries s) lost, refl))
  | inr (i, found) ↦
      let long : s.file_count ≤ length s.files = ground (arith, valid.slots, valid.bounded) in
      let (some_files, moved) = take-shift_down_found name s.file_count i s.files long found in
      rw (on_memrm_run name i s found) (
        record {
          slots = length-shift_down (s.file_count - 1 - i) i s.files ∙ valid.slots;
          bounded = ground (arith, valid.bounded);
        },
        inr (moved, omega arith, refl),
      )
]

-- What the text of a `store` command says.
unfoldable pub command : Text → ℕ → ℕ → Text
command name cap bytes = name ++ b' ' ∷ (to_string cap ++ b' ' ∷ to_string bytes)

pub Without-command :
    (name : Text) (cap bytes : ℕ) → Without 0 name → Without 0 (command name cap bytes)
unfolding command
Without-command name cap bytes h = Without-append 0 name _ h (
  refl,
  Without-append 0 (to_string cap) _ (Without-to_string cap 0 (omega arith))
      (refl, Without-to_string bytes 0 (omega arith)),
)

parse_store-command :
    (name : Text) (cap bytes : ℕ)
    → Without b' ' name
    → cap < 2 ^ 32
    → bytes < 2 ^ 32
    → parse_store (command name cap bytes) ≡ some (name, cap, bytes)
unfolding parse_store command
parse_store-command name cap bytes plain small few =
    let first : split_space (command name cap bytes)
        ≡ (name, some (to_string cap ++ b' ' ∷ to_string bytes)) =
      split_space_found name (to_string cap ++ b' ' ∷ to_string bytes) plain in
    let second =
      split_space_found (to_string cap) (to_string bytes)
        (Without-to_string cap b' ' (omega arith)) in
    ap of_split first
    ∙ ap (of_fields name) second
    ∙ ap₂ (λ c b. some (name, c, b)) (parse_digits-to_string cap small)
        (parse_digits-to_string bytes few)

find_file_written :
    (q name : Text) (s : MemFs) (f : MemFile)
    → s.file_count < length s.files
    → c_string f.name ≡ name
    → find_file q (record { files = set s.files s.file_count f; file_count = s.file_count + 1 })
      ≡ elim (find_file q s) [ some g ↦ some g | none ↦ if text_eq name q then some f else none ]
unfolding find_file
find_file_written q name s f room shown =
    ap (find_in q) (take-set s.file_count s.files f room)
    ∙ find_in-append q (entries s) f
    ∙ ap
        (λ t. elim (find_in q (entries s)) [
          | some g ↦ some g
          | none ↦ if text_eq t q then some f else none
        ])
        shown

-- In a valid state with a free slot, after the `store` of a name of at most 63 bytes that holds no
-- space and no NUL, with a capability and a size of 32 bits, a name that a file had finds that file as
-- before, also if it is the name stored. Any other name finds nothing, but for the name stored, which
-- finds the new file: its name, capability and size are those of the command.
pub find_file-on_store :
    (name q : Text) (cap bytes : ℕ) (s : MemFs)
    → IsValid s
    → s.file_count < max_files
    → Without b' ' name
    → Without 0 name
    → length name ≤ 63
    → cap < 2 ^ 32
    → bytes < 2 ^ 32
    → (f : MemFile) × (c_string f.name ≡ name)
      × (f.cap ≡ cap)
      × (f.bytes ≡ bytes)
      × (find_file q (on_store (command name cap bytes) s).0 ≡ elim (find_file q s) [
        | some g ↦ some g
        | none ↦ if text_eq name q then some f else none
      ])
unfolding stored
find_file-on_store name q cap bytes s valid room plain no_nul short small few =
    let f = stored (get_or s.files s.file_count no_file) name cap bytes in
    let whole : min (length name) 63 ≡ length name = ground arith in
    let shown : c_string f.name ≡ name =
      c_string-write_name _ name
      ∙ ap c_string
          (ap (λ k. take k name) whole ∙ take_of_length-le (length name) name (omega arith))
      ∙ c_string_of_no_nul name no_nul in
    let run =
      on_store_run (command name cap bytes) name cap bytes s room
        (parse_store-command name cap bytes plain small few) in
    (
      f,
      shown,
      refl,
      refl,
      ap (find_file q) run ∙ find_file_written q name s f (ground (arith, valid.slots)) shown,
    )
