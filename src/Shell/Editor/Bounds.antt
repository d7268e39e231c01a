-- ===== src/Shell/Editor/Bounds.antt =====
-- The line of the editor of src/apps/shell.cpp stays inside its buffer.
use rp4_demo.Base.{
  ℕ, zero, suc, ◌+◌, ◌-◌, ◌<◌, ◌≡◌, ◌∙◌, arith, ◌&&◌, ◌||◌, List, [], ◌∷◌, ltb, ◌==◌, Text, take,
  drop, set, length, min, Bool-cases, inl, inr, length-set, length-append, length-take,
}
use rp4_demo.Shell.{History, recall, command_names, max_line}
use rp4_demo.Shell.Editor.{
  Mode, at_key, after_escape, after_bracket, LineEditor, Outcome, wait_for, entered, cancelled,
  send, clear, set_line, view, matching, choose, complete, arrow_key, again, type_char, key,
}

-- The line lies in the buffer with room for the NUL.
abbrev pub Fits : LineEditor → Type 0
Fits e = (length e.buf ≡ max_line) × (e.len < max_line)

clear-Fits : (e : LineEditor) → Fits e → Fits (clear e)
unfolding clear
clear-Fits e (full, room) = (length-set e.buf 0 0 ∙ full, omega arith)

length-drop : (n : ℕ) (xs : Text) → length (drop n xs) ≡ length xs - n
length-drop zero xs = omega arith
length-drop (suc n) [] = omega arith
length-drop (suc n) (x ∷ xs) = omega (arith, length-drop n xs)

set_line-Fits : (s : Text) (e : LineEditor) → Fits e → Fits (set_line s e)
unfolding set_line clear
set_line-Fits s e (full, room) =
    let cleared = set e.buf 0 0 in
    let n = min (length s) (length cleared - 1) in
    let whole : length cleared ≡ max_line = length-set e.buf 0 0 ∙ full in
    (
      omega (
        arith,
        whole,
        length-append (take n s) (0 ∷ drop (n + 1) cleared),
        length-take n s,
        length-drop (n + 1) cleared,
      ),
      omega (arith, whole),
    )

choose-Fits : (ms : List Text) (e : LineEditor) → Fits e → Fits (choose ms e)
unfolding choose
choose-Fits [] e fits = fits
choose-Fits (m ∷ []) e fits = set_line-Fits m e fits
choose-Fits (m ∷ m' ∷ ms) e fits = fits

complete-Fits : (e : LineEditor) → Fits e → Fits (complete e)
unfolding complete
complete-Fits e (full, room) =
    let ended = record e { buf = set e.buf e.len 0 } in
    let fits : Fits ended = (length-set e.buf e.len 0 ∙ full, room) in
    elim (Bool-cases (e.len == 0)) [
      | inl empty ↦ rw empty fits
      | inr filled ↦ rw filled (choose-Fits (matching (view ended) command_names) ended fits)
    ]

arrow_key-Fits : (seq : ℕ) (h : History) (e : LineEditor) → Fits e → Fits (arrow_key seq h e)
unfolding arrow_key
arrow_key-Fits seq h e fits = elim (Bool-cases (seq == b'A' && ltb e.hist_idx h.count)) [
  | inl up ↦ rw up (set_line-Fits (recall e.hist_idx h) e fits)
  | inr not_up ↦ elim (Bool-cases (seq == b'B' && e.browsing)) [
    | inl down ↦ elim (Bool-cases (ltb 1 e.hist_idx)) [
      | inl more ↦
          rw (not_up, down, more)
            (set_line-Fits (recall (e.hist_idx - 2) h) (record e { hist_idx = e.hist_idx - 1 })
              fits)
      | inr last ↦ rw (not_up, down, last) (clear-Fits e fits)
    ]
    | inr other ↦ rw (not_up, other) fits
  ]
]

-- One loop round is only begun with room for a byte.
abbrev pub Ready : LineEditor → Type 0
Ready e = (length e.buf ≡ max_line) × (e.len < max_line - 1)

abbrev pub ReadyOutcome : Outcome → Type 0
ReadyOutcome (wait_for m e) = Ready e
ReadyOutcome (entered e) = Fits e
ReadyOutcome (cancelled e) = Fits e

Ready-Fits : (e : LineEditor) → Ready e → Fits e
Ready-Fits e (full, room) = (full, omega (arith, room))

again-Ready : (e : LineEditor) → Fits e → ReadyOutcome (again e)
again-Ready e (full, room) = elim (Bool-cases (ltb e.len (length e.buf - 1))) [
  | inl free ↦ rw free (full, ground (arith, free, full))
  | inr used ↦ rw used (full, room)
]

-- Whatever byte comes in: the line stays inside its buffer with room for the NUL, and where the editor
-- goes on reading there is room for one more byte as well.
pub key-ReadyOutcome :
    (m : Mode) (c : ℕ) (h : History) (e : LineEditor) → Ready e → ReadyOutcome (key m c h e)
unfolding key type_char
key-ReadyOutcome after_escape c h e ready = elim (Bool-cases (c == b'[')) [
  | inl bracket ↦ rw bracket ready
  | inr letter ↦ rw letter (again-Ready e (Ready-Fits e ready))
]
key-ReadyOutcome after_bracket c h e ready =
    again-Ready (arrow_key c h e) (arrow_key-Fits c h e (Ready-Fits e ready))
key-ReadyOutcome at_key c h e ready =
    let fits = Ready-Fits e ready in
    elim (Bool-cases (c == 13 || c == 10)) [
      | inl enter ↦ rw enter fits
      | inr a ↦ elim (Bool-cases (c == 0x7F || c == 8)) [
        | inl back ↦ elim (Bool-cases (ltb 0 e.len)) [
          | inl some_left ↦
              rw (a, back, some_left)
                (again-Ready (send (8 ∷ b' ' ∷ 8 ∷ []) (record e { len = e.len - 1 }))
                  (ready.0, omega (arith, ready.1)))
          | inr none_left ↦ rw (a, back, none_left) (again-Ready e fits)
        ]
        | inr b ↦ elim (Bool-cases (c == 0x15)) [
          | inl kill ↦ rw (a, b, kill) (again-Ready (clear e) (clear-Fits e fits))
          | inr d ↦ elim (Bool-cases (c == 0x03)) [
            | inl stop ↦ rw (a, b, d, stop) (length-set e.buf 0 0 ∙ ready.0, omega arith)
            | inr f ↦ elim (Bool-cases (c == 0x1B)) [
              | inl escape ↦ rw (a, b, d, f, escape) ready
              | inr g ↦ elim (Bool-cases (c == 9)) [
                | inl tab ↦
                    rw (a, b, d, f, g, tab) (again-Ready (complete e) (complete-Fits e fits))
                | inr plain ↦
                    rw (a, b, d, f, g, plain)
                      (again-Ready (type_char c e)
                        (length-set e.buf e.len c ∙ ready.0, omega (arith, ready.1)))
              ]
            ]
          ]
        ]
      ]
    ]
