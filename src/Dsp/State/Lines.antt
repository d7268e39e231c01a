-- ===== src/Dsp/State/Lines.antt =====
-- The delay line of src/dsp/dsp.cppm as the list of the samples that went in, the last one first.
use rp4_demo.Base.{
  ℕ, zero, suc, ◌+◌, ◌-◌, ◌*◌, ◌%◌, ◌<◌, ◌≡◌, ◌≢◌, refl, ap, sym, ◌∙◌, List, [], ◌∷◌, length,
  length-set, set, get_or, replicate, length-replicate, arith, inl, inr, ◌⊎◌, if◌then◌else◌, ◌==◌,
  ltb, true, subst, Bool-cases,
}
use rp4_demo.Dsp.Floats.{Floats, clamp_index, clamp_index-lt}
use rp4_demo.Dsp.State.{State, opened, delay_write_read}
use native.Mathlib.Nat.{mod-eq_of_lt, mod_self, add-mul-mod_self_left}

mod_once : (a n : ℕ) → a < n → (a + n) % n ≡ a
mod_once a n h =
    let one : a + n ≡ a + n * 1 = omega arith in
    ap (λ t. t % n) one ∙ add-mul-mod_self_left a n 1 ∙ mod-eq_of_lt h

pub get_or-set_self {ℓ} :
    {A : Type ℓ} (xs : List A) (i : ℕ) (v d : A) → i < length xs → get_or (set xs i v) i d ≡ v
get_or-set_self [] i v d h = absurd (omega arith)
get_or-set_self (x ∷ xs) zero v d h = refl
get_or-set_self (x ∷ xs) (suc i) v d h = get_or-set_self xs i v d (omega arith)

pub get_or-set_ne {ℓ} :
    {A : Type ℓ} (xs : List A) (i j : ℕ) (v d : A) → i ≢ j → get_or (set xs i v) j d ≡ get_or xs j d
get_or-set_ne [] i j v d h = refl
get_or-set_ne (x ∷ xs) zero zero v d h = absurd (h refl)
get_or-set_ne (x ∷ xs) zero (suc j) v d h = refl
get_or-set_ne (x ∷ xs) (suc i) zero v d h = refl
get_or-set_ne (x ∷ xs) (suc i) (suc j) v d h = get_or-set_ne xs i j v d (λ e. h (ap suc e))

get_or-replicate {ℓ} : {A : Type ℓ} (n i : ℕ) (a : A) → get_or (replicate n a) i a ≡ a
get_or-replicate zero i a = refl
get_or-replicate (suc n) zero a = refl
get_or-replicate (suc n) (suc i) a = get_or-replicate n i a

-- Where the sample of `k` ticks ago lies, seen from the position that is written next.
abbrev pub slot : ℕ → ℕ → ℕ → ℕ
slot len wp k = if ltb k wp then wp - 1 - k else wp + len - 1 - k

-- What the two cases of a line's output have in common, `k` samples back.
output_zero {ℓ} :
    {A : Type ℓ} (k : ℕ) (x d : A) (xs past : List A)
    → get_or (x ∷ past) k d
      ≡ (if ltb 0 k then get_or past (k - 1 - 0) d else get_or (x ∷ xs) (0 - k) d)
output_zero zero x d xs past = refl
output_zero (suc k) x d xs past =
    let e : suc k - 1 - 0 ≡ k = omega arith in
    let yes : ltb 0 (suc k) ≡ true = ground arith in rw (yes, e) refl

output_suc {ℓ} :
    {A : Type ℓ} (k n : ℕ) (x d : A) (xs past : List A)
    → (if ltb n k then get_or (x ∷ past) (k - 1 - n) d else get_or xs (n - k) d)
      ≡ (if ltb (suc n) k then get_or past (k - 1 - suc n) d else get_or (x ∷ xs) (suc n - k) d)
output_suc k n x d xs past = elim (Bool-cases (ltb (suc n) k)) [
  | inl later ↦
      let sooner : ltb n k ≡ true = ground (arith, later) in
      let e : k - 1 - n ≡ suc (k - 1 - suc n) = ground (arith, later) in rw (later, sooner, e) refl
  | inr not_later ↦ elim (Bool-cases (ltb n k)) [
    | inl now ↦
        let e : k - 1 - n ≡ 0 = ground (arith, now, not_later) in
        let e' : suc n - k ≡ 0 = ground (arith, now, not_later) in rw (not_later, now, e, e') refl
    | inr before ↦
        let e : suc n - k ≡ suc (n - k) = ground (arith, before) in rw (not_later, before, e) refl
  ]
]

module _ (fl : Floats) where
  open fl use {Float, f_zero}

  -- A line of `len` samples and a position stand for the samples that went in.
  pub record Line (len : ℕ) (past : List Float) (buf : List Float) (wp : ℕ) : Type 0 where
    pub full : length buf ≡ len
    pub inside : wp < len
    pub holds : (k : ℕ) → k < len → get_or buf (slot len wp k) f_zero ≡ get_or past k f_zero

  Line-empty : (len : ℕ) → 0 < len → Line len [] (replicate len f_zero) 0
  Line-empty len h = record {
    full = length-replicate len f_zero;
    inside = h;
    holds = λ k l. get_or-replicate len _ f_zero;
  }

  holds-write :
      (len wp wp' : ℕ) (past buf : List Float) (x : Float)
      → Line len past buf wp
      → (wp' ≡ wp + 1) ⊎ ((wp' ≡ 0) × (wp + 1 ≡ len))
      → (k : ℕ) → k < len
      → get_or (set buf wp x) (slot len wp' k) f_zero ≡ get_or (x ∷ past) k f_zero
  holds-write len wp wp' past buf x line next zero l =
      let here : slot len wp' 0 ≡ wp = ground (arith, next, line.inside) in
      ap (λ i. get_or (set buf wp x) i f_zero) here
      ∙ get_or-set_self buf wp x f_zero (ground (arith, line.full, line.inside))
  holds-write len wp wp' past buf x line next (suc k) l =
      let before : slot len wp' (suc k) ≡ slot len wp k = ground (arith, next, line.inside) in
      let other : wp ≢ slot len wp k = λ e. ground (arith, line.inside, e) in
      ap (λ i. get_or (set buf wp x) i f_zero) before
      ∙ get_or-set_ne buf wp (slot len wp k) x f_zero other
      ∙ line.holds k (omega arith)

  next_pos :
      (len wp : ℕ)
      → wp < len
      → (((wp + 1) % len ≡ wp + 1) ⊎ (((wp + 1) % len ≡ 0) × (wp + 1 ≡ len)))
        × ((wp + 1) % len < len)
  next_pos len wp h = elim (Bool-cases (ltb (wp + 1) len)) [
    | inl more ↦
        let e : (wp + 1) % len ≡ wp + 1 = mod-eq_of_lt (ground (arith, more)) in
        (inl e, rw e (ground (arith, more)))
    | inr last ↦
        let end : wp + 1 ≡ len = ground (arith, last) in
        let e : (wp + 1) % len ≡ 0 = rw end (mod_self len) in (inr (e, end), rw e (omega arith))
  ]

  Line-write :
      (len wp : ℕ) (past buf : List Float) (x : Float)
      → Line len past buf wp
      → Line len (x ∷ past) (set buf wp x) ((wp + 1) % len)
  Line-write len wp past buf x line =
      let (next, small) = next_pos len wp line.inside in
      record {
        full = length-set buf wp x ∙ line.full;
        inside = small;
        holds = holds-write len wp ((wp + 1) % len) past buf x line next;
      }

  -- The index that is read is the slot of the sample, seen from the next position.
  read_slot :
      (len wp k : ℕ) → wp < len → k < len → (wp + len - k) % len ≡ slot len ((wp + 1) % len) k
  read_slot len wp k h l = elim (Bool-cases (ltb wp k)) [
    | inl far ↦
        let e : (wp + len - k) % len ≡ wp + len - k = mod-eq_of_lt (ground (arith, far)) in
        e ∙ ground (arith, far, (next_pos len wp h).0)
    | inr near ↦
        let shift : wp + len - k ≡ (wp - k) + len = ground (arith, near) in
        let e : (wp + len - k) % len ≡ wp - k =
          ap (λ t. t % len) shift ∙ mod_once (wp - k) len (omega arith) in
        e ∙ ground (arith, near, (next_pos len wp h).0)
  ]

  opened_written :
      (id len wp : ℕ) (buf : List Float) (s : State fl)
      → s.delays id ≡ buf
      → s.delay_pos id ≡ wp
      → 0 < length buf
      → opened fl id len s ≡ (buf, wp)
  unfolding opened
  opened_written id len wp [] s e p h = absurd (omega arith)
  opened_written id len wp (y ∷ ys) s e p h = rw (opened, e, p) refl

  -- The line under an identifier holds the samples `past`.
  abbrev pub Holds : ℕ → ℕ → List Float → State fl → Type 0
  Holds id len past s = Line len past (opened fl id len s).0 (opened fl id len s).1

  pub delay_write_read-Holds :
      (id len d : ℕ) (x : Float) (past : List Float) (s : State fl)
      → 0 < len
      → Holds id len past s
      → ((delay_write_read fl id len x d s).0 ≡ get_or (x ∷ past) (clamp_index d (len - 1)) f_zero)
        × Holds id len (x ∷ past) (delay_write_read fl id len x d s).1
  unfolding delay_write_read
  delay_write_read-Holds id len d x past s h line =
      let o = opened fl id len s in
      let k = clamp_index d (len - 1) in
      let small : k < len = clamp_index-lt d len h in
      let after = Line-write len o.1 past o.0 x line in
      let mine : (id == id) ≡ true = ground arith in
      (
        ap (λ i. get_or (set o.0 o.1 x) i f_zero) (read_slot len o.1 k line.inside small)
            ∙ after.holds k small,
        subst (λ p. Line len (x ∷ past) p.0 p.1)
            (sym (
              opened_written id len ((o.1 + 1) % len) (set o.0 o.1 x)
                (delay_write_read fl id len x d s).1 (rw mine refl) (rw mine refl)
                (ground (arith, after.full))))
            after,
      )

  -- The samples that come out of a line that is given one sample after another, with the same delay.
  abbrev pub run : ℕ → ℕ → ℕ → List Float → State fl → List Float
  run id len d [] s = []
  run id len d (x ∷ xs) s =
      (delay_write_read fl id len x d s).0 ∷ run id len d xs (delay_write_read fl id len x d s).1

  run-Holds :
      (id len d n : ℕ) (xs past : List Float) (s : State fl)
      → 0 < len
      → Holds id len past s
      → n < length xs
      → get_or (run id len d xs s) n f_zero ≡ (
          if ltb n (clamp_index d (len - 1))
          then get_or past (clamp_index d (len - 1) - 1 - n) f_zero
          else get_or xs (n - clamp_index d (len - 1)) f_zero)
  run-Holds id len d n [] past s h line l = absurd (omega arith)
  run-Holds id len d zero (x ∷ xs) past s h line l =
      let k = clamp_index d (len - 1) in
      (delay_write_read-Holds id len d x past s h line).0 ∙ output_zero k x f_zero xs past
  run-Holds id len d (suc n) (x ∷ xs) past s h line l =
      let k = clamp_index d (len - 1) in
      let (now, then_) = delay_write_read-Holds id len d x past s h line in
      run-Holds id len d n xs (x ∷ past) _ h then_ (omega arith) ∙ output_suc k n x f_zero xs past

  -- A line that was never used, given samples one after another with the same delay `d`: what comes out
  -- at tick `n` is the sample of `clamp(d, 0, len - 1)` ticks before, and zero before there is one.
  pub delay_write_read-run :
      (id len d n : ℕ) (xs : List Float) (s : State fl)
      → 0 < len
      → s.delays id ≡ []
      → n < length xs
      → get_or (run id len d xs s) n f_zero ≡ (
          if ltb n (clamp_index d (len - 1))
          then f_zero
          else get_or xs (n - clamp_index d (len - 1)) f_zero)
  unfolding opened
  delay_write_read-run id len d n xs s h unused l =
      run-Holds id len d n xs [] s h
        (let fresh : opened fl id len s ≡ (replicate len f_zero, 0) = rw (opened, unused) refl in
          subst (λ p. Line len [] p.0 p.1) (sym fresh) (Line-empty len h))
        l
