-- ===== src/Shell/Editor.antt =====
-- The line editor of src/apps/shell.cpp, one received byte at a time. The body of the loop of `read` waits
-- for up to two more bytes behind an escape; `Mode` says which byte it waits for.
pub mod Bounds
use rp4_demo.Base.{
  ℕ, zero, suc, ◌+◌, ◌-◌, ◌<◌, ◌≡◌, ◌∙◌, arith, Bool, true, false, ◌&&◌, ◌||◌, Option, none, some,
  List, [], ◌∷◌, ◌++◌, ltb, ◌==◌, if◌then◌else◌, Text, text_eq, codes, take, drop, set, length, min,
  replicate, Bool-cases, inl, inr, length-set, length-append, length-take,
}
use rp4_demo.Shell.{History, recall, push, command_names, max_line}

pub data Mode : Type 0 where
  at_key after_escape after_bracket : Mode

-- `LineEditor`, and the bytes sent to the UART so far.
pub record LineEditor : Type 0 where
  pub buf : Text
  pub len : ℕ
  pub hist_idx : ℕ
  pub browsing : Bool
  pub sent : Text

-- What a byte leads to: another wait, the end of the line, or ctrl-c.
pub data Outcome : Type 0 where
  wait_for : Mode → LineEditor → Outcome
  entered : LineEditor → Outcome
  cancelled : LineEditor → Outcome

abbrev pub send : Text → LineEditor → LineEditor
send t e = record e { sent = e.sent ++ t }

pub clear : LineEditor → LineEditor
clear e = record e {
  buf = set e.buf 0 0;
  len = 0;
  sent = e.sent ++ (replicate e.len 8 ++ (replicate e.len b' ' ++ replicate e.len 8));
}

pub set_line : Text → LineEditor → LineEditor
unfolding clear
set_line s e =
    let n = min (length s) (length (clear e).buf - 1) in
    record (clear e) {
      buf = take n s ++ 0 ∷ drop (n + 1) (clear e).buf;
      len = n;
      sent = (clear e).sent ++ take n s;
    }

abbrev pub view : LineEditor → Text
view e = take e.len e.buf

abbrev pub starts_with : Text → Text → Bool
starts_with prefix cmd = text_eq (take (length prefix) cmd) prefix

abbrev pub matching : Text → List Text → List Text
matching prefix [] = []
matching prefix (c ∷ cs) =
    if starts_with prefix c then c ∷ matching prefix cs else matching prefix cs

abbrev print_matches : List Text → Text
print_matches [] = []
print_matches (c ∷ cs) = codes "  " ++ (c ++ 10 ∷ print_matches cs)

-- What the tab key does with the names that match. `puts` sends "rp4> ".
pub choose : List Text → LineEditor → LineEditor
unfolding set_line
choose [] e = e
choose (m ∷ []) e = set_line m e
choose (m ∷ m' ∷ ms) e = send (10 ∷ (print_matches (m ∷ m' ∷ ms) ++ (codes "rp4> " ++ view e))) e

-- The tab key.
pub complete : LineEditor → LineEditor
unfolding choose
complete e =
    let ended = record e { buf = set e.buf e.len 0 } in
    if e.len == 0 then ended else choose (matching (view ended) command_names) ended

-- The keys up and down.
pub arrow_key : ℕ → History → LineEditor → LineEditor
unfolding set_line clear
arrow_key seq h e =
    if seq == b'A' && ltb e.hist_idx h.count
    then record (set_line (recall e.hist_idx h) e) { hist_idx = e.hist_idx + 1; browsing = true }
    else if seq == b'B' && e.browsing
    then (if ltb 1 e.hist_idx
        then set_line (recall (e.hist_idx - 2) h) (record e { hist_idx = e.hist_idx - 1 })
        else record (clear e) { hist_idx = 0; browsing = false })
    else e

-- The test of the loop: room for one more byte, or else the line is at its end.
abbrev pub again : LineEditor → Outcome
again e = if ltb e.len (length e.buf - 1) then wait_for at_key e else entered e

pub type_char : ℕ → LineEditor → LineEditor
type_char c e = record {
  buf = set e.buf e.len c;
  len = e.len + 1;
  hist_idx = 0;
  browsing = false;
  sent = e.sent ++ c ∷ [];
}

pub key : Mode → ℕ → History → LineEditor → Outcome
unfolding complete arrow_key clear type_char
key after_escape c h e = if c == b'[' then wait_for after_bracket e else again e
key after_bracket c h e = again (arrow_key c h e)
key at_key c h e =
    if c == 13 || c == 10
    then entered (send (13 ∷ 10 ∷ []) e)
    else if c == 0x7F || c == 8
    then again (if ltb 0 e.len then send (8 ∷ b' ' ∷ 8 ∷ []) (record e { len = e.len - 1 }) else e)
    else if c == 0x15
    then again (clear e)
    else if c == 0x03
    then cancelled (send (codes "^C" ++ 13 ∷ 10 ∷ []) (record e { buf = set e.buf 0 0; len = 0 }))
    else if c == 0x1B
    then wait_for after_escape e
    else if c == 9
    then again (complete e)
    else again (type_char c e)

-- `read` on the bytes that come in: the line, the history and the editor; `none` while it waits.
pub read_from : Mode → List ℕ → History → LineEditor → Option (Text × History × LineEditor)
unfolding key
read_from m [] h e = none
read_from m (c ∷ cs) h e = elim (key m c h e) [
  | wait_for m' e' ↦ read_from m' cs h e'
  | entered e' ↦ some (view e', push (view e') h, record e' { buf = set e'.buf e'.len 0 })
  | cancelled e' ↦ some ([], h, e')
]

pub read : List ℕ → History → LineEditor → Option (Text × History × LineEditor)
unfolding read_from
read cs h e = read_from at_key cs h (record e { len = 0; hist_idx = 0; browsing = false })
