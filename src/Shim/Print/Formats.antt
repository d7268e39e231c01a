-- ===== src/Shim/Print/Formats.antt =====
-- `vfprintf` of src/shim/libc_shim.c on whole formats.
use rp4_demo.Base.{
  ℕ, ◌+◌, ◌%◌, ◌^◌, Bool-cases, Option-cases, inl, inr, ◌≡◌, ◌≢◌, refl, ap, sym, ◌∙◌, ◌==◌, arith,
  List, [], ◌∷◌, ◌++◌, append-nil, Text, false, codes, length, append_assoc, ap₂,
}
use rp4_demo.Shim.Print.{
  Arg, Outcome, printed, past_end, undefined, label, convert, behind, plain, vfprintf,
}
use rp4_demo.Shim.Print.Pieces.{Matches, Shown, sent, convert_lem}

-- A byte that is shown as it is, or a conversion with its arguments.
pub data Piece : Type 0 where
  byte : (c : ℕ) → c ≢ b'%' → Piece
  conversion : (c : ℕ) (args : List Arg) → Matches (label c) args → Piece

abbrev pub format : List Piece → Text
format [] = []
format (byte c other ∷ ps) = c ∷ format ps
format (conversion c args fits ∷ ps) = b'%' ∷ c ∷ format ps

abbrev pub arguments : List Piece → List Arg
arguments [] = []
arguments (byte c other ∷ ps) = arguments ps
arguments (conversion c args fits ∷ ps) = args ++ arguments ps

-- What the pieces show, one after another; what the UART gets; and how long the first is.
pub Shows : List Piece → List Text → Type 0
Shows [] [] = Unit
Shows (byte c other ∷ ps) (t ∷ ts) = (t ≡ c ∷ []) × Shows ps ts
Shows (conversion c args fits ∷ ps) (t ∷ ts) = Shown (label c) c args t × Shows ps ts
Shows _ ts = ⊥

abbrev pub piece_sent : Piece → Text → Text
piece_sent (byte c other) t = plain c
piece_sent (conversion c args fits) t = sent (label c) t

abbrev pub all_sent : List Piece → List Text → Text
all_sent [] ts = []
all_sent (p ∷ ps) [] = []
all_sent (p ∷ ps) (t ∷ ts) = piece_sent p t ++ all_sent ps ts

abbrev pub shown_length : List Text → ℕ
shown_length [] = 0
shown_length (t ∷ ts) = length t + shown_length ts

behind-behind :
    (a b : Text) (n m : ℕ) (o : Outcome)
    → behind a (n % 2 ^ 32) (behind b m o) ≡ behind (a ++ b) (n + m) o
behind-behind a b n m (printed rest k) =
    ap₂ (λ t c. printed t c) (sym (append_assoc a b rest)) (omega arith)
behind-behind a b n m past_end = refl
behind-behind a b n m undefined = refl

nothing-behind : (a : Text) (n : ℕ) (o : Outcome) → behind a n o ≡ behind [] 0 (behind a n o)
nothing-behind a n (printed t k) = ap (printed (a ++ t)) (omega arith)
nothing-behind a n past_end = refl
nothing-behind a n undefined = refl

-- The count that is returned has 32 bits.
nothing_sent : (fmt : Text) (args : List Arg) → vfprintf fmt args ≡ behind [] 0 (vfprintf fmt args)
unfolding vfprintf
nothing_sent [] args = refl
nothing_sent (c ∷ []) args = elim (Bool-cases (c == b'%')) [
  | inl lone ↦ rw lone refl
  | inr other ↦ rw other refl
]
nothing_sent (c ∷ d ∷ fmt) args = elim (Bool-cases (c == b'%')) [
  | inr other ↦ rw (vfprintf, other) (nothing-behind (plain c) 1 (vfprintf (d ∷ fmt) args))
  | inl percent ↦ elim (Option-cases (convert (label d) d args)) [
    | inl bad ↦ rw (vfprintf, percent, bad) refl
    | inr ((out, n, rest), fine) ↦
        rw (vfprintf, percent, fine) (nothing-behind out n (vfprintf fmt rest))
  ]
]

vfprintf-byte :
    (c : ℕ) (fmt : Text) (args : List Arg)
    → c ≢ b'%'
    → vfprintf (c ∷ fmt) args ≡ behind (plain c) 1 (vfprintf fmt args)
unfolding vfprintf
vfprintf-byte c [] args other =
    let no : c == b'%' ≡ false = ground (arith, other) in
    rw no (ap (λ t. printed t 1) (sym (append-nil (plain c))))
vfprintf-byte c (d ∷ fmt) args other =
    let no : c == b'%' ≡ false = ground (arith, other) in rw (vfprintf, no) refl

-- The pieces are taken one after another, whatever follows.
vfprintf-append :
    (ps : List Piece) (tail : Text) (rest : List Arg)
    → (ts : List Text) × Shows ps ts
      × (vfprintf (format ps ++ tail) (arguments ps ++ rest)
          ≡ behind (all_sent ps ts) (shown_length ts) (vfprintf tail rest))
unfolding Shows vfprintf
vfprintf-append [] tail rest = ([], tt, nothing_sent tail rest)
vfprintf-append (byte c other ∷ ps) tail rest =
    let (ts, shows, e) = vfprintf-append ps tail rest in
    (
      (c ∷ []) ∷ ts,
      (refl, shows),
      vfprintf-byte c (format ps ++ tail) (arguments ps ++ rest) other
          ∙ ap (behind (plain c) 1) e
          ∙ behind-behind (plain c) (all_sent ps ts) 1 (shown_length ts) (vfprintf tail rest),
    )
vfprintf-append (conversion c args fits ∷ ps) tail rest =
    let (ts, shows, e) = vfprintf-append ps tail rest in
    let (t, shown, converted) = convert_lem c (arguments ps ++ rest) fits in
    (
      t ∷ ts,
      (shown, shows),
      rw (append_assoc args (arguments ps) rest, vfprintf, converted)
          (ap (behind (sent (label c) t) (length t % 2 ^ 32)) e
            ∙ behind-behind (sent (label c) t) (all_sent ps ts) (length t) (shown_length ts)
                (vfprintf tail rest)),
    )

-- On a format of bytes and conversions whose arguments have the right types and ranges, vfprintf sends
-- what the pieces show, with a carriage return in front of a line end that is not in a single character,
-- and returns how many bytes they show, modulo 2 ^ 32. A number shows its sign or prefix and its digits, at most 20
-- decimal or 16 hexadecimal ones, that read back as the number.
pub vfprintf_lem :
    (ps : List Piece)
    → (ts : List Text) × Shows ps ts
      × (vfprintf (format ps) (arguments ps) ≡ printed (all_sent ps ts) (shown_length ts % 2 ^ 32))
unfolding vfprintf
vfprintf_lem ps =
    let (ts, shows, e) = vfprintf-append ps [] [] in
    (
      ts,
      shows,
      ap₂ vfprintf (sym (append-nil (format ps))) (sym (append-nil (arguments ps)))
          ∙ e
          ∙ ap₂ printed (append-nil (all_sent ps ts)) (omega arith),
    )

-- A format of bytes and conversions whose arguments have the right types and ranges, and behind them a
-- lone percent sign, is read behind its terminator.
pub vfprintf-past_end :
    (ps : List Piece) → vfprintf (format ps ++ codes "%") (arguments ps) ≡ past_end
unfolding vfprintf
vfprintf-past_end ps =
    let (ts, shows, e) = vfprintf-append ps (codes "%") [] in
    ap (vfprintf (format ps ++ codes "%")) (sym (append-nil (arguments ps))) ∙ e
