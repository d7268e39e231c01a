-- ===== src/MemFs/Tests.antt =====
-- Runs of the in-memory files (src/apps/memfsmgr.cpp), and their theorems at concrete inputs.
use rp4_demo.Base.{
  ◌+◌, ◌≤◌, ◌≡◌, refl, none, some, [], ◌∷◌, ◌++◌, arith, ◌⊎◌, codes, Without, ◌<◌, Text, take, min,
  length, replicate, if◌then◌else◌, text_eq, length-replicate,
}
use rp4_demo.MemFs.{
  MemFile, MemFs, initial, max_files, no_file, on_store, on_memrm, find_file, c_string,
  update_status,
}
use rp4_demo.MemFs.Table.{entries, IsValid, drop_first}
use rp4_demo.MemFs.Commands.{Fields, command, on_store_lem, on_memrm_lem, find_file-on_store}

initial-IsValid : IsValid initial
initial-IsValid = record { slots = length-replicate max_files no_file; bounded = omega arith }

-- Two files with the names "a" and "b".
abbrev two_files : MemFs
two_files = record {
  files =
      record { name = codes "a"; cap = 3; bytes = 10 }
      ∷ record { name = codes "b"; cap = 4; bytes = 20 }
      ∷ replicate 62 no_file;
  file_count = 2;
}

two_files-IsValid : IsValid two_files
two_files-IsValid = record { slots = refl; bounded = omega arith }

on_store_lem_example :
    IsValid (on_store (codes "a 3 10") initial).0
    × (((on_store (codes "a 3 10") initial ≡ (initial, []))
          × ((max_files ≤ initial.file_count) ⊎ Without b' ' (codes "a 3 10")))
        ⊎ ((name rest : Text) × (f : MemFile) × (initial.file_count < max_files)
            × (codes "a 3 10" ≡ name ++ b' ' ∷ rest)
            × Without b' ' name
            × Fields rest f.cap f.bytes
            × (c_string f.name ≡ c_string (take (min (length name) 63) name))
            × (entries (on_store (codes "a 3 10") initial).0 ≡ entries initial ++ f ∷ [])))
on_store_lem_example = on_store_lem (codes "a 3 10") initial initial-IsValid

on_memrm_lem_example :
    IsValid (on_memrm (codes "a") two_files).0
    × (((find_file (codes "a") two_files ≡ none)
          × (on_memrm (codes "a") two_files ≡ (two_files, [])))
        ⊎ ((entries (on_memrm (codes "a") two_files).0 ≡ drop_first (codes "a") (entries two_files))
            × ((on_memrm (codes "a") two_files).0.file_count + 1 ≡ two_files.file_count)
            × ((on_memrm (codes "a") two_files).1
                ≡ update_status (on_memrm (codes "a") two_files).0)))
on_memrm_lem_example = on_memrm_lem (codes "a") two_files two_files-IsValid

find_file-on_store_example :
    (f : MemFile) × (c_string f.name ≡ codes "ab")
    × (f.cap ≡ 7)
    × (f.bytes ≡ 300)
    × (find_file (codes "b") (on_store (command (codes "ab") 7 300) two_files).0
        ≡ elim (find_file (codes "b") two_files) [
          | some g ↦ some g
          | none ↦ if text_eq (codes "ab") (codes "b") then some f else none
        ])
find_file-on_store_example =
    find_file-on_store (codes "ab") (codes "b") 7 300 two_files two_files-IsValid (omega arith)
      (refl, (refl, tt)) (refl, (refl, tt)) (omega arith) (omega arith) (omega arith)
