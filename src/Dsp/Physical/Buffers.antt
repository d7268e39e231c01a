-- ===== src/Dsp/Physical/Buffers.antt =====
-- The buffers of the physical models of src/dsp/dsp.cppm stay as long as they were made, and no tick
-- reads or writes outside of them.
use rp4_demo.Base.{
  ℕ, zero, suc, ◌+◌, ◌%◌, ◌-◌, ◌<◌, ◌≤◌, ap, ap₂, sym, min, max, codes, ◌≡◌, refl, ◌∙◌, List, [],
  ◌∷◌, arith, length, length-set, length-replicate, Bool, if◌then◌else◌,
}
use rp4_demo.Dsp.Floats.{Floats, f_clamp}
use native.Mathlib.Nat.{mod-lt}
use rp4_demo.Dsp.Tokens.Ended.{if-both}
use rp4_demo.Dsp.Physical.{
  ModalBar, half, at_least, pm_l2s, rising, input_or, lit, mk_plucked, excite, pm_noise,
  tick_plucked, Ring, mk_ring, write_ring, mk_bowed, tick_bowed, mk_flute, tick_flute, mk_clarinet,
  tick_clarinet, mk_modal, mk_modes, strike, ring_modes, tick_modal, Physical, plucked, bowed,
  flute, clarinet, modal, tick_physical, Mode,
}

module _ (fl : Floats) where
  open fl use {Float, f_mul, int_of, float_of}

  -- The buffer has the stored length, and the position that is written next lies in it.
  abbrev pub RingOk : Ring fl → Type 0
  RingOk r = (length r.cells ≡ r.len) × (r.pos < r.len)

  -- What each model keeps: the string's line has `dlen` cells, and each position is inside.
  pub InRange : Physical fl → Type 0
  InRange (plucked p) = (length p.dl ≡ p.dlen) × (p.wp < p.dlen)
  InRange (bowed b) = RingOk b.nut × RingOk b.bridge
  InRange (flute t) = RingOk t.bore × RingOk t.jet
  InRange (clarinet t) = RingOk t.bore
  InRange (modal b) = length b.modes ≤ 8

  -- How long the buffers of a model are; those of a bar are its modes.
  pub lengths : Physical fl → List ℕ
  lengths (plucked p) = length p.dl ∷ []
  lengths (bowed b) = length b.nut.cells ∷ length b.bridge.cells ∷ []
  lengths (flute t) = length t.bore.cells ∷ length t.jet.cells ∷ []
  lengths (clarinet t) = length t.bore.cells ∷ []
  lengths (modal b) = length b.modes ∷ []

  -- The nut's share of a string and the rest of it; the bore of a tube and the share of the jet.
  abbrev bowed_lengths : Float → Float → Float → List ℕ
  bowed_lengths len sr pos =
      let total : ℕ = max 4 (pm_l2s fl len sr) in
      let share = f_clamp fl pos (lit fl (codes "0.05")) (lit fl (codes "0.95")) in
      let nut : ℕ = at_least fl 2 (int_of (f_mul (float_of total) share)) in
      nut ∷ max 2 (total - nut) ∷ []

  abbrev flute_lengths : Float → Float → Float → List ℕ
  flute_lengths len sr pos =
      let bore : ℕ = max 2 (pm_l2s fl len sr) in
      let share = f_clamp fl pos (lit fl (codes "0.05")) (half fl) in
      bore ∷ at_least fl 1 (int_of (f_mul (float_of bore) share)) ∷ []

  -- A model as a constructor makes it, or behind ticks, with the lengths of the buffers that the
  -- constructor makes.
  pub data Reached : List ℕ → Physical fl → Type 0 where
    new_plucked :
        (len sr damping : Float)
        → Reached (pm_l2s fl len sr ∷ []) (plucked (mk_plucked fl len sr damping))
    new_bowed :
        (len sr pos : Float) → Reached (bowed_lengths len sr pos) (bowed (mk_bowed fl len sr pos))
    new_flute :
        (len sr pos : Float) → Reached (flute_lengths len sr pos) (flute (mk_flute fl len sr pos))
    new_clarinet :
        (len sr : Float)
        → Reached (max 2 (pm_l2s fl len sr) ∷ []) (clarinet (mk_clarinet fl len sr))
    new_modal :
        (f sr : Float) (ms : List (Float × Float × Float))
        → Reached (min (length ms) 8 ∷ []) (modal (mk_modal fl f sr ms))
    ticked :
        {sizes : List ℕ} {p : Physical fl} (xs : List Float)
        → Reached sizes p
        → Reached sizes (tick_physical fl p xs).0

  mk_ring-Ok : (n : ℕ) → 0 < n → RingOk (mk_ring fl n)
  mk_ring-Ok n h = (length-replicate n fl.f_zero, h)

  next-lt : (a n : ℕ) → 0 < n → a % n < n
  next-lt a n h = mod-lt a h

  write_ring-Ok : (v : Float) (r : Ring fl) → RingOk r → RingOk (write_ring fl v r)
  write_ring-Ok v r h = (length-set r.cells r.pos v ∙ h.0, next-lt (r.pos + 1) r.len (omega arith))

  at_least-le : (lo i : ℕ) → lo ≤ at_least fl lo i
  unfolding at_least
  at_least-le lo i = ground arith

  pm_l2s-pos : (l sr : Float) → 0 < pm_l2s fl l sr
  unfolding pm_l2s
  pm_l2s-pos l sr = omega (arith, at_least-le 1 _)

  length-excite : (n : ℕ) (gain : Float) (seed : ℕ) → length (excite fl n gain seed).0 ≡ n
  unfolding excite
  length-excite zero gain seed = refl
  length-excite (suc n) gain seed = ap suc (length-excite n gain (pm_noise fl seed).1)

  length-mk_modes :
      (n : ℕ) (f : Float) (ms : List (Float × Float × Float))
      → length (mk_modes fl n f ms) ≡ min (length ms) n
  unfolding mk_modes
  length-mk_modes zero f ms = omega arith
  length-mk_modes (suc n) f [] = ground arith
  length-mk_modes (suc n) f (m ∷ ms) = ground (arith, length-mk_modes n f ms)

  length-strike : (gain : Float) (ms : List (Mode fl)) → length (strike fl gain ms) ≡ length ms
  unfolding strike
  length-strike gain [] = refl
  length-strike gain (m ∷ ms) = ap suc (length-strike gain ms)

  length-ring_modes :
      (sr : Float) (ms : List (Mode fl)) (sum : Float)
      → length (ring_modes fl sr sum ms).0 ≡ length ms
  unfolding ring_modes
  length-ring_modes sr [] sum = refl
  length-ring_modes sr (m ∷ ms) sum = ap suc (length-ring_modes sr ms _)

  length-tick_modal :
      (b : ModalBar fl) (xs : List Float) → length (tick_modal fl b xs).0.modes ≡ length b.modes
  unfolding tick_modal
  length-tick_modal b xs =
      let gain : Float = input_or fl xs 0 (lit fl (codes "0.8")) in
      let trig : Bool = rising fl b.armed (input_or fl xs 1 fl.f_zero) in
      let struck : List (Mode fl) = if trig then strike fl gain b.modes else b.modes in
      let SizeOk : List (Mode fl) → Type 0 = λ ms. length ms ≡ length b.modes in
      length-ring_modes b.sr struck fl.f_zero
      ∙ if-both SizeOk trig {x = strike fl gain b.modes} {y = b.modes}
          (λ _. length-strike gain b.modes) refl

  tick_physical-InRange :
      (p : Physical fl) (xs : List Float) → InRange p → InRange (tick_physical fl p xs).0
  unfolding InRange tick_physical tick_plucked tick_bowed tick_flute tick_clarinet tick_modal
  tick_physical-InRange (plucked p) xs (size, inside) =
      let trig : Bool = rising fl p.armed (input_or fl xs 1 fl.f_zero) in
      let filled : List Float =
        (excite fl p.dlen (input_or fl xs 0 (lit fl (codes "0.8"))) p.seed).0 in
      let SizeOk : List Float → Type 0 = λ dl. length dl ≡ p.dlen in
      let kept : SizeOk (if trig then filled else p.dl) =
        if-both SizeOk trig {x = filled} {y = p.dl} (λ _. length-excite p.dlen _ p.seed) size in
      (length-set _ p.wp _ ∙ kept, next-lt (p.wp + 1) p.dlen (omega arith))
  tick_physical-InRange (bowed b) xs (nut, bridge) =
      (write_ring-Ok _ b.nut nut, write_ring-Ok _ b.bridge bridge)
  tick_physical-InRange (flute t) xs (bore, jet) =
      (write_ring-Ok _ t.bore bore, write_ring-Ok _ t.jet jet)
  tick_physical-InRange (clarinet t) xs bore = write_ring-Ok _ t.bore bore
  tick_physical-InRange (modal b) xs few = omega (arith, few, length-tick_modal b xs)

  -- A tick keeps the lengths of the buffers.
  lengths-tick_physical :
      (p : Physical fl) (xs : List Float)
      → InRange p
      → lengths (tick_physical fl p xs).0 ≡ lengths p
  unfolding InRange lengths tick_physical tick_plucked tick_bowed tick_flute tick_clarinet
      tick_modal
  lengths-tick_physical (plucked p) xs h =
      ap (λ n. n ∷ []) ((tick_physical-InRange (plucked p) xs h).0 ∙ sym h.0)
  lengths-tick_physical (bowed b) xs h =
      ap₂ (λ a c. a ∷ c ∷ []) (length-set b.nut.cells b.nut.pos _)
        (length-set b.bridge.cells b.bridge.pos _)
  lengths-tick_physical (flute t) xs h =
      ap₂ (λ a c. a ∷ c ∷ []) (length-set t.bore.cells t.bore.pos _)
        (length-set t.jet.cells t.jet.pos _)
  lengths-tick_physical (clarinet t) xs h = ap (λ n. n ∷ []) (length-set t.bore.cells t.bore.pos _)
  lengths-tick_physical (modal b) xs h = ap (λ n. n ∷ []) (length-tick_modal b xs)

  -- However a model was made and whatever came in since: its buffers are as long as its constructor made
  -- them, which is the length that is stored beside each buffer, every position is inside its buffer, and
  -- a bar has as many modes as it was given, but at most eight.
  pub Reached-InRange :
      (sizes : List ℕ) (p : Physical fl) → Reached sizes p → (lengths p ≡ sizes) × InRange p
  unfolding InRange lengths mk_plucked mk_bowed mk_flute mk_clarinet
  Reached-InRange _ _ (new_plucked len sr damping) =
      let made = length-replicate (pm_l2s fl len sr) fl.f_zero in
      (ap (λ n. n ∷ []) made, (made, pm_l2s-pos len sr))
  Reached-InRange _ _ (new_bowed len sr pos) =
      let nut = mk_ring-Ok _ (omega (arith, at_least-le 2 _)) in
      let bridge = mk_ring-Ok _ (omega arith) in
      (ap₂ (λ a b. a ∷ b ∷ []) nut.0 bridge.0, (nut, bridge))
  Reached-InRange _ _ (new_flute len sr pos) =
      let bore = mk_ring-Ok _ (omega arith) in
      let jet = mk_ring-Ok _ (omega (arith, at_least-le 1 _)) in
      (ap₂ (λ a b. a ∷ b ∷ []) bore.0 jet.0, (bore, jet))
  Reached-InRange _ _ (new_clarinet len sr) =
      let bore = mk_ring-Ok _ (omega arith) in (ap (λ n. n ∷ []) bore.0, bore)
  Reached-InRange _ _ (new_modal f sr ms) =
      let made = length-mk_modes 8 f ms in (ap (λ n. n ∷ []) made, ground (arith, made))
  Reached-InRange sizes _ (ticked {p = p} xs before) =
      let (made, kept) = Reached-InRange sizes p before in
      (lengths-tick_physical p xs kept ∙ made, tick_physical-InRange p xs kept)
