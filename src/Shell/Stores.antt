-- ===== src/Shell/Stores.antt =====
-- A `store` that is typed at the shell (src/apps/shell.cpp), up to the table of files of
-- src/apps/memfsmgr.cpp.
use rp4_demo.Base.{
  ℕ, ◌^◌, ◌≤◌, ◌<◌, ◌≡◌, refl, ap, ◌∙◌, arith, false, none, some, List, [], ◌∷◌, ◌++◌, ◌==◌,
  if◌then◌else◌, Text, codes, text_eq, text_eq-heads, text_eq-tails, length, min, take,
  take_of_length-le, Without,
}
use rp4_demo.Pps.{Event, publish, print}
use rp4_demo.MemFs.{MemFs, MemFile, on_store, find_file, c_string, max_files, split_space}
use rp4_demo.MemFs.Table.{IsValid, c_string-append, c_string_of_no_nul, split_space_found}
use rp4_demo.MemFs.Commands.{command, Without-command, find_file-on_store}
use rp4_demo.Shell.{dispatch, path_of, value_of}

-- How the kernel hands events on to the files' manager, with what both sides rely on: the subscriber of a
-- path is called with the value of each publish to it, and a print reaches nobody.
pub record Delivery : Type 0 where
  pub deliver : List Event → MemFs → MemFs
  pub deliver-nil : (s : MemFs) → deliver [] s ≡ s
  pub deliver-store :
      (v : Text) (es : List Event) (s : MemFs)
      → deliver (publish (codes "/pps/cmd/store") (codes "value") v ∷ es) s
        ≡ deliver es (on_store v s).0
  pub deliver-print :
      (t : Text) (es : List Event) (s : MemFs) → deliver (print t ∷ es) s ≡ deliver es s

abbrev pub typed : Text → Text
typed v = codes "store " ++ v

path_of-store : path_of (codes "store") ≡ codes "/pps/cmd/store"
unfolding path_of
path_of-store =
    c_string-append (codes "/pps/cmd/store") []
    ∙ c_string_of_no_nul (codes "/pps/cmd/store") (ground arith)

value_of_short : (v : Text) → Without 0 v → length v ≤ 127 → value_of v ≡ v
unfolding value_of
value_of_short v plain short =
    let whole : min (length v) 127 ≡ length v = ground arith in
    c_string-append (take (min (length v) 127) v) []
    ∙ ap c_string (ap (λ k. take k v) whole ∙ take_of_length-le (length v) v (omega arith))
    ∙ c_string_of_no_nul v plain

-- What the kernel has handed on behind the dispatch of the line.
deliver-dispatch :
    (k : Delivery) (listed : List Text) (v : Text) (s : MemFs)
    → Without 0 v
    → length v ≤ 127
    → k.deliver (dispatch listed (typed v)).1 s ≡ (on_store v s).0
unfolding dispatch
deliver-dispatch k listed v s plain short =
    let parts : split_space (typed v) ≡ (codes "store", some v) =
      split_space_found (codes "store") v (ground arith) in
    let not_empty : (length (typed v) == 0) ≡ false = ground arith in
    let not_reboot : text_eq (typed v) (codes "reboot") ≡ false = text_eq-heads _ _ _ _ refl in
    let not_help : text_eq (typed v) (codes "help") ≡ false = text_eq-heads _ _ _ _ refl in
    let not_status : text_eq (typed v) (codes "status") ≡ false =
      text_eq-tails _ _ _ ∙ text_eq-tails _ _ _ ∙ text_eq-heads _ _ _ _ refl in
    rw
      (
        dispatch,
        parts,
        not_empty,
        not_reboot,
        not_help,
        not_status,
        path_of-store,
        value_of_short v plain short,
      )
      (k.deliver-store v _ s
        ∙ k.deliver-print _ _ _
        ∙ k.deliver-print _ _ _
        ∙ k.deliver-print _ _ _
        ∙ k.deliver-print _ _ _
        ∙ k.deliver-print _ _ _
        ∙ k.deliver-nil _)

-- A line "store <name> <capability> <size>" typed at the shell, through a kernel that calls the files' manager
-- with the values published to /pps/cmd/store, in a valid state with a free slot, for a name of at most
-- 63 bytes that holds no space and no NUL, numbers of 32 bits, and at most 127 bytes behind "store ": a
-- name that a file had finds that file as before. Any other name finds nothing, but for the name typed,
-- which finds the new file: its name, capability and size are those of the line.
pub find_file-dispatch :
    (k : Delivery) (listed : List Text) (name q : Text) (cap bytes : ℕ) (s : MemFs)
    → IsValid s
    → s.file_count < max_files
    → Without b' ' name
    → Without 0 name
    → length name ≤ 63
    → cap < 2 ^ 32
    → bytes < 2 ^ 32
    → length (command name cap bytes) ≤ 127
    → (f : MemFile) × (c_string f.name ≡ name)
      × (f.cap ≡ cap)
      × (f.bytes ≡ bytes)
      × (find_file q (k.deliver (dispatch listed (typed (command name cap bytes))).1 s)
          ≡ elim (find_file q s) [
            | some g ↦ some g
            | none ↦ if text_eq name q then some f else none
          ])
find_file-dispatch k listed name q cap bytes s valid room plain no_nul short small few fits =
    let (f, named, capped, sized, found) =
      find_file-on_store name q cap bytes s valid room plain no_nul short small few in
    (
      f,
      named,
      capped,
      sized,
      ap (find_file q) (
            deliver-dispatch k listed (command name cap bytes) s
              (Without-command name cap bytes no_nul) fits)
          ∙ found,
    )
