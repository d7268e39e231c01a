-- ===== src/Shell.antt =====
-- src/apps/shell.cpp: the history of lines, the line editor and the dispatch of a line.
mod Tests
pub mod Editor
pub mod Recall
pub mod Session
pub mod Stores
use rp4_demo.Base.{
  ℕ, ◌+◌, ◌-◌, ◌%◌, Bool, true, false, ◌&&◌, Option, none, some, List, [], ◌∷◌, ◌++◌, ltb, leb,
  ◌==◌, if◌then◌else◌, Text, text_eq, codes, take, drop, set, get_or, length, replicate, min,
}
use rp4_demo.Pps.{Event, publish, print}
use rp4_demo.MemFs.{c_string, split_space}

abbrev pub max_entries : ℕ
max_entries = 32

abbrev pub max_line : ℕ
max_line = 128

-- `History`: 32 arrays of 128 bytes, the number in use, and the next one to be written.
pub record History : Type 0 where
  pub entries : List Text
  pub count : ℕ
  pub head : ℕ

abbrev pub empty_history : History
empty_history = record {
  entries = replicate max_entries (replicate max_line 0);
  count = 0;
  head = 0;
}

-- `History::get`
pub recall : ℕ → History → Text
recall idx h =
    if leb h.count idx
    then []
    else c_string (get_or h.entries ((h.head + max_entries - 1 - idx) % max_entries) [])

-- The copy of a line into the bytes of an entry.
abbrev pub write_line : Text → Text → Text
write_line line dst =
    let n = min (length line) (max_line - 1) in take n line ++ 0 ∷ drop (n + 1) dst

abbrev pub pushed : Text → History → History
pushed line h = record {
  entries = set h.entries h.head (write_line line (get_or h.entries h.head []));
  count = if ltb h.count max_entries then h.count + 1 else h.count;
  head = (h.head + 1) % max_entries;
}

pub push : Text → History → History
unfolding recall
push line h =
    if length line == 0
    then h
    else if ltb 0 h.count && text_eq (recall 0 h) line
    then h
    else pushed line h

abbrev pub command_names : List Text
command_names =
    codes "play"
    ∷ codes "stop"
    ∷ codes "mute"
    ∷ codes "unmute"
    ∷ codes "volume"
    ∷ codes "ls"
    ∷ codes "config"
    ∷ codes "status"
    ∷ codes "help"
    ∷ codes "reboot"
    ∷ []

abbrev print_names : List Text → Text
print_names [] = []
print_names (n ∷ ns) = n ++ (codes " " ++ print_names ns)

abbrev print_entries : List Text → List Event
print_entries [] = []
print_entries (e ∷ es) = print (codes "  ") ∷ print e ∷ print (codes "\n") ∷ print_entries es

-- The bytes of the arrow in the shell's messages.
abbrev arrow : Text
arrow = 0xE2 ∷ 0x86 ∷ 0x92 ∷ []

-- The path and the value of a command: what fits in the arrays, up to the first NUL.
pub path_of : Text → Text
path_of key = c_string (codes "/pps/cmd/" ++ take (min (length key) 50) key ++ 0 ∷ [])

pub value_of : Text → Text
value_of val = c_string (take (min (length val) 127) val ++ 0 ∷ [])

-- `dispatch`: whether the shell goes on, and the events. The kernel's list of "/pps" is an argument.
pub dispatch : List Text → Text → Bool × List Event
unfolding path_of value_of
dispatch listed cmd =
    let (key, tail) = split_space cmd in
    let val : Text = elim tail [ none ↦ codes "1" | some v ↦ v ] in
    if length cmd == 0
    then (true, [])
    else if text_eq cmd (codes "reboot")
    then (false, [])
    else if text_eq cmd (codes "help")
    then (
      true,
      print (codes "  <cmd> [arg]   " ++ (arrow ++ codes " publishes to /pps/cmd/<cmd>\n"))
          ∷ print (codes "  status        " ++ (arrow ++ codes " reads /pps/*/status\n"))
          ∷ print (codes "  reboot        " ++ (arrow ++ codes " PM watchdog reset\n"))
          ∷ print (codes "  commands: ")
          ∷ print (print_names command_names)
          ∷ print (codes "\n")
          ∷ [],
    )
    else if text_eq cmd (codes "status")
    then (true, print_entries listed)
    else (
      true,
      publish (path_of key) (codes "value") (value_of val)
          ∷ print (codes "  " ++ (arrow ++ codes " "))
          ∷ print (path_of key)
          ∷ print (codes " = ")
          ∷ print (value_of val)
          ∷ print (codes "\n")
          ∷ [],
    )
