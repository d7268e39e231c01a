-- ===== src/MemFs.antt =====
-- src/apps/memfsmgr.cpp: the table of named buffers and the handlers of its commands.
mod Tests
pub mod Table
pub mod Commands
use rp4_demo.Base.{
  ℕ, zero, suc, ◌+◌, ◌-◌, ◌%◌, ◌^◌, Bool, true, false, Option, none, some, List, [], ◌∷◌, ◌++◌, ltb,
  leb, ◌==◌, if◌then◌else◌, Text, text_eq, codes, take, drop, set, get_or, length, replicate, min,
  to_string, parse_digits,
}
use rp4_demo.Pps.{Event, publish, print}

-- `struct MemFile`: the 64 bytes of `name`, and the capability as the bits of an `int`.
pub record MemFile : Type 0 where
  pub name : Text
  pub cap : ℕ
  pub bytes : ℕ

abbrev pub max_files : ℕ
max_files = 64

abbrev pub no_file : MemFile
no_file = record { name = replicate 64 0; cap = 0; bytes = 0 }

-- The file's static variables.
pub record MemFs : Type 0 where
  pub files : List MemFile
  pub file_count : ℕ

abbrev pub initial : MemFs
initial = record { files = replicate max_files no_file; file_count = 0 }

-- A character array as a string: the bytes before the first NUL.
pub c_string : Text → Text
c_string [] = []
c_string (c ∷ cs) = if c == 0 then [] else c ∷ c_string cs

-- The copy of a name into the 64 bytes of a slot.
pub write_name : Text → Text → Text
write_name old name = let len = min (length name) 63 in take len name ++ 0 ∷ drop (len + 1) old

-- The files of a prefix of the table, in order.
pub find_in : Text → List MemFile → Option MemFile
unfolding c_string
find_in name [] = none
find_in name (f ∷ fs) = if text_eq (c_string f.name) name then some f else find_in name fs

pub find_file : Text → MemFs → Option MemFile
unfolding find_in
find_file name s = find_in name (take s.file_count s.files)

pub total_bytes : List MemFile → ℕ
total_bytes [] = 0
total_bytes (f ∷ fs) = (f.bytes + total_bytes fs) % 2 ^ 64

pub update_status : MemFs → List Event
unfolding total_bytes
update_status s =
    publish (codes "/pps/memfs/status") (codes "count") (to_string s.file_count)
    ∷ publish (codes "/pps/memfs/status") (codes "bytes")
        (to_string (total_bytes (take s.file_count s.files)))
    ∷ []

-- `find(' ')`: the text before the first space, and the text behind it if there is a space.
pub split_space : Text → Text × Option Text
split_space [] = ([], none)
split_space (c ∷ cs) =
    let rest = split_space cs in if c == b' ' then ([], some cs) else (c ∷ rest.0, rest.1)

-- "name cap_id bytes"; `none` where there is no space.
pub parse_store : Text → Option (Text × ℕ × ℕ)
unfolding split_space
parse_store v =
    let (name, more) = split_space v in
    elim more [
      | none ↦ none
      | some rest ↦
          let (cap, tail) = split_space rest in
          some (name, parse_digits 0 cap, elim tail [ none ↦ 0 | some b ↦ parse_digits 0 b ])
    ]

-- The slot that a `store` writes.
pub stored : MemFile → Text → ℕ → ℕ → MemFile
unfolding write_name
stored f name cap bytes = record { name = write_name f.name name; cap = cap; bytes = bytes }

pub on_store : Text → MemFs → MemFs × List Event
unfolding parse_store stored update_status c_string
on_store v s = if leb max_files s.file_count then (s, []) else elim (parse_store v) [
  | none ↦ (s, [])
  | some (name, cap, bytes) ↦
      let f = stored (get_or s.files s.file_count no_file) name cap bytes in
      let s' : MemFs = record {
        files = set s.files s.file_count f;
        file_count = s.file_count + 1;
      } in
      (
        s',
        update_status s'
            ++ print (codes "memfs: stored ") ∷ print (c_string f.name) ∷ print (codes "\n") ∷ [],
      )
]

-- `std::to_string` of the `int` with these bits.
pub int_to_string : ℕ → Text
int_to_string v = if ltb v (2 ^ 31) then to_string v else b'-' ∷ to_string (2 ^ 32 - v)

pub on_load : Text → MemFs → List Event
unfolding find_file int_to_string
on_load name s = elim (find_file name s) [
  | none ↦ publish (codes "/pps/memfs/loaded") (codes "error") (codes "not found") ∷ []
  | some f ↦
      publish (codes "/pps/memfs/loaded") (codes "cap") (int_to_string f.cap)
      ∷ publish (codes "/pps/memfs/loaded") (codes "name") name
      ∷ []
]

pub listing : List MemFile → Text
unfolding c_string
listing [] = []
listing (f ∷ fs) =
    c_string f.name ++ (codes " (" ++ (to_string f.bytes ++ (codes " bytes)\n" ++ listing fs)))

pub on_memls : MemFs → List Event
unfolding listing
on_memls s =
    let text = listing (take s.file_count s.files) in
    publish (codes "/pps/memfs/listing") (codes "files")
      (elim text [ [] ↦ codes "(empty)" | c ∷ cs ↦ c ∷ cs ])
    ∷ []

-- `for (j = i; j + 1 < file_count; ++j) files[j] = files[j + 1];`, by the rounds that are left.
pub shift_down : ℕ → ℕ → List MemFile → List MemFile
shift_down zero j fs = fs
shift_down (suc n) j fs = shift_down n (j + 1) (set fs j (get_or fs (j + 1) no_file))

-- The index of the first file with the name.
pub index_in : Text → List MemFile → Option ℕ
unfolding c_string
index_in name [] = none
index_in name (f ∷ fs) =
    if text_eq (c_string f.name) name
    then some 0
    else elim (index_in name fs) [ none ↦ none | some i ↦ some (i + 1) ]

pub on_memrm : Text → MemFs → MemFs × List Event
unfolding index_in shift_down update_status
on_memrm name s = elim (index_in name (take s.file_count s.files)) [
  | none ↦ (s, [])
  | some i ↦
      let s' : MemFs = record {
        files = shift_down (s.file_count - 1 - i) i s.files;
        file_count = s.file_count - 1;
      } in
      (s', update_status s')
]

-- What the entry publishes before it subscribes.
pub at_start : List Event
at_start =
    publish (codes "/pps/memfs/status") (codes "count") (codes "0")
    ∷ publish (codes "/pps/memfs/status") (codes "bytes") (codes "0")
    ∷ []
