-- ===== src/Bt/Presence.antt =====
-- When src/apps/btmgr.cpp holds a dongle for present.
use rp4_demo.Base.{
  ℕ, ◌≡◌, ◌≢◌, ◌↔◌, ◌⊎◌, inl, inr, refl, sym, ap, ◌∙◌, arith, Bool, true, false, ◌&&◌, List, [],
  ◌∷◌, All, codes, text_eq→eq, length, Bool-cases, if◌then◌else◌,
}
use mathlib.Core.Bool.{false≢true}
use rp4_demo.Pps.{Notification, Kind}
use rp4_demo.Bt.{on_usb, is_bluetooth, is_removed, is_set}

-- A notification of /pps/usb/, with its kind.
abbrev pub Usb : Type 0
Usb = Kind × Notification

-- `dongle_present` behind notifications.
pub present_after : Bool → List Usb → Bool
unfolding on_usb
present_after b [] = b
present_after b ((kind, n) ∷ ns) = present_after (on_usb kind n b).0 ns

abbrev pub NotRemoved : Usb → Type 0
NotRemoved u = is_removed u.1 ≡ false

-- Some notification sets a subclass of bluetooth, and none behind it tells of a removal.
abbrev pub Plugged : List Usb → Type 0
Plugged [] = ⊥
Plugged ((kind, n) ∷ ns) = ((is_bluetooth n && is_set kind ≡ true) × All NotRemoved ns) ⊎ Plugged ns

and_left : (a b : Bool) → a && b ≡ true → a ≡ true
and_left true b h = refl
and_left false b h = grind arith

not_eight : (a b : ℕ) → a ≡ 8 → b ≡ 5 → a ≢ b
not_eight a b ha hb e = omega arith

-- The two keys differ.
not-is_removed :
    (kind : Kind) (n : Notification) → is_bluetooth n && is_set kind ≡ true → is_removed n ≡ false
not-is_removed kind n h = elim (Bool-cases (is_removed n)) [
  | inr e ↦ e
  | inl e ↦
      let key : n.key ≡ codes "subclass" =
        text_eq→eq n.key (codes "subclass") (and_left _ _ (and_left _ _ h)) in
      let other : n.key ≡ codes "state" = text_eq→eq n.key (codes "state") (and_left _ _ e) in
      elim (not_eight 8 5 refl refl (ap length (sym key ∙ other))) [ ]
]

-- What one notification leaves of the flag.
flag_removed :
    (kind : Kind) (n : Notification) (b : Bool) → is_removed n ≡ true → (on_usb kind n b).0 ≡ false
unfolding on_usb
flag_removed kind n b h = rw h refl

flag_kept :
    (kind : Kind) (n : Notification) (b : Bool)
    → is_removed n ≡ false
    → (on_usb kind n b).0 ≡ (if is_bluetooth n && is_set kind then true else b)
unfolding on_usb
flag_kept kind n b h = rw h refl

present_after-kept : (ns : List Usb) → All NotRemoved ns → present_after true ns ≡ true
unfolding present_after
present_after-kept [] h = refl
present_after-kept ((kind, n) ∷ ns) h = elim (Bool-cases (is_bluetooth n && is_set kind)) [
  | inl e ↦
      ap (λ b. present_after b ns) (flag_kept kind n true h.0 ∙ rw e refl)
      ∙ present_after-kept ns h.1
  | inr e ↦
      ap (λ b. present_after b ns) (flag_kept kind n true h.0 ∙ rw e refl)
      ∙ present_after-kept ns h.1
]

present_after-Plugged : (b : Bool) (ns : List Usb) → Plugged ns → present_after b ns ≡ true
unfolding present_after
present_after-Plugged b [] h = elim h [ ]
present_after-Plugged b ((kind, n) ∷ ns) (inr h) = present_after-Plugged (on_usb kind n b).0 ns h
present_after-Plugged b ((kind, n) ∷ ns) (inl h) =
    ap (λ c. present_after c ns) (flag_kept kind n b (not-is_removed kind n h.0) ∙ rw h.0 refl)
    ∙ present_after-kept ns h.1

-- Where the flag is set: it was from the start and nothing was removed, or a dongle is plugged.
Plugged-present_after :
    (ns : List Usb) (b : Bool)
    → present_after b ns ≡ true
    → ((b ≡ true) × All NotRemoved ns) ⊎ Plugged ns
unfolding present_after
Plugged-present_after [] b h = inl (h, tt)
Plugged-present_after ((kind, n) ∷ ns) b h = elim (Bool-cases (is_removed n)) [
  | inl gone ↦ elim (Plugged-present_after ns _ h) [
    | inr p ↦ inr (inr p)
    | inl (e, kept) ↦ elim (false≢true (sym (flag_removed kind n b gone) ∙ e)) [ ]
  ]
  | inr here ↦ elim (Plugged-present_after ns _ h) [
    | inr p ↦ inr (inr p)
    | inl (e, kept) ↦ elim (Bool-cases (is_bluetooth n && is_set kind)) [
      | inl found ↦ inr (inl (found, kept))
      | inr other ↦ inl (sym (flag_kept kind n b here ∙ rw other refl) ∙ e, (here, kept))
    ]
  ]
]

-- Behind every sequence of notifications of the USB objects, the flag that lets a pairing start is set
-- where one of them set a subclass of bluetooth and none behind it told of the removal of a device, and
-- only there.
pub present_after_iff : (ns : List Usb) → (present_after false ns ≡ true) ↔ Plugged ns
present_after_iff ns = (
  λ h. elim (Plugged-present_after ns false h) [
    | inr p ↦ p
    | inl (e, kept) ↦ elim (false≢true e) [ ]
  ],
  present_after-Plugged false ns,
)
