-- ===== src/Shell/Tests.antt =====
-- The theorems of the shell (src/apps/shell.cpp) at concrete inputs.
use rp4_demo.Base.{
  ◌+◌, ◌-◌, ◌<◌, ◌≡◌, ◌≢◌, refl, true, false, [], ltb, if◌then◌else◌, text_eq, codes, take, length,
  min, replicate, arith, ◌⊎◌, none, some, List, ◌∷◌, text_eq_refl, to_string, digits_before, ◌≤◌,
  length-replicate,
}
use rp4_demo.Pps.{Event, publish, print}
use rp4_demo.MemFs.{MemFs, MemFile, c_string, initial, on_store, find_file, max_files, no_file}
use rp4_demo.MemFs.Commands.{command}
use rp4_demo.Shell.{dispatch}
use rp4_demo.Shell.Stores.{Delivery, typed, find_file-dispatch}
use rp4_demo.Shell.{empty_history, max_line, recall, push}
use rp4_demo.Shell.Recall.{IsValid, push_lem}
use rp4_demo.Shell.Editor.{LineEditor, at_key, key}
use rp4_demo.Shell.Editor.Bounds.{ReadyOutcome, key-ReadyOutcome}

push_lem_example :
    IsValid (push (codes "ls") empty_history)
    × (((push (codes "ls") empty_history ≡ empty_history)
          × ((length (codes "ls") ≡ 0)
              ⊎ ((0 < empty_history.count)
                  × (text_eq (recall 0 empty_history) (codes "ls") ≡ true))))
        ⊎ ((length (codes "ls") ≢ 0)
            × (¬ (
                (0 < empty_history.count) × (text_eq (recall 0 empty_history) (codes "ls") ≡ true)))
            × (recall 0 (push (codes "ls") empty_history)
                ≡ c_string (take (min (length (codes "ls")) (max_line - 1)) (codes "ls")))
            × (recall (3 + 1) (push (codes "ls") empty_history)
                ≡ (if ltb 3 31 then recall 3 empty_history else []))))
push_lem_example =
    push_lem (codes "ls") empty_history 3
      (record { slots = refl; inside = omega arith; bounded = omega arith })

abbrev fresh : LineEditor
fresh = record { buf = replicate 128 0; len = 0; hist_idx = 0; browsing = false; sent = [] }

key-ReadyOutcome_example : ReadyOutcome (key at_key b'l' empty_history fresh)
key-ReadyOutcome_example = key-ReadyOutcome at_key b'l' empty_history fresh (refl, omega arith)

-- A kernel on which only the files' manager listens.
stores : List Event → MemFs → MemFs
stores [] s = s
stores (publish path key value ∷ es) s =
    let rest = stores es s in
    if text_eq path (codes "/pps/cmd/store") then stores es (on_store value s).0 else rest
stores (print text ∷ es) s = stores es s

only_files : Delivery
unfolding stores
only_files = record {
  deliver = stores;
  deliver-nil = λ s. refl;
  deliver-store = λ v es s. rw (text_eq_refl (codes "/pps/cmd/store")) refl;
  deliver-print = λ t es s. refl;
}

short_line : length (command (codes "ab") 7 300) ≤ 127
unfolding command to_string digits_before
short_line = omega arith

find_file-dispatch_example :
    (f : MemFile) × (c_string f.name ≡ codes "ab")
    × (f.cap ≡ 7)
    × (f.bytes ≡ 300)
    × (find_file
          (codes "ab")
          (only_files.deliver (dispatch [] (typed (command (codes "ab") 7 300))).1 initial)
        ≡ elim (find_file (codes "ab") initial) [
          | some g ↦ some g
          | none ↦ if text_eq (codes "ab") (codes "ab") then some f else none
        ])
find_file-dispatch_example =
    find_file-dispatch only_files [] (codes "ab") (codes "ab") 7 300 initial
      (record { slots = length-replicate max_files no_file; bounded = omega arith }) (omega arith)
      (refl, (refl, tt)) (refl, (refl, tt)) (omega arith) (omega arith) (omega arith) short_line
