-- ===== src/Display/Pixels.antt =====
-- The drawing of src/apps/displaymgr.cpp pixel by pixel, on a screen whose lines fit into its words.
use rp4_demo.Base.{
  ℕ, zero, suc, ◌+◌, ◌-◌, ◌*◌, ◌/◌, ◌%◌, ◌≤◌, ◌<◌, ◌≡◌, ◌≢◌, refl, ap, sym, ◌∙◌, Bool, true, false,
  ◌&&◌, leb, ltb, ◌==◌, if◌then◌else◌, arith, Bool-cases, inl, inr, text_eq_refl, codes, List,
  get_or, subst, Text,
}
use Prim.Native.Nat.{bit_and}
use rp4_demo.Pps.{Notification}
use rp4_demo.Display.{
  Screen, Words, write_word, offset, fill_rect, clear_words, clear, u32, Mailbox, message,
  init_framebuffer, on_display, on_status, dark, clay,
}
use rp4_demo.Display.Drawing.{rows-kept, rows-hit}
use native.Mathlib.Nat.{div-eq_of_lt-le, mul-le-mul_right}

-- The framebuffer is there, a line has room for the screen's width, and the 32-bit offsets do not wrap.
pub record IsValid (s : Screen) : Type 0 where
  pub there : s.fb ≢ 0
  pub wide : s.width ≤ s.pitch / 4
  pub bounded : s.pitch / 4 * s.height < u32

abbrev pub in_rect : ℕ → ℕ → ℕ → ℕ → ℕ → ℕ → Bool
in_rect x y w h px py = (leb x px && ltb px (x + w)) && (leb y py && ltb py (y + h))

module _ (s : Screen) (valid : IsValid s) where
  pub offset-lt :
      (px py : ℕ) → px < s.width → py < s.height → py * (s.pitch / 4) + px < s.pitch / 4 * s.height
  offset-lt px py a b =
      let line : (py + 1) * (s.pitch / 4) ≤ s.height * (s.pitch / 4) =
        mul-le-mul_right (s.pitch / 4) (omega (arith, b)) in
      omega (arith, line, a, valid.wide)

  offset-plain :
      (px py : ℕ) → px < s.width → py < s.height → offset s px py ≡ py * (s.pitch / 4) + px
  offset-plain px py a b = omega (arith, offset-lt px py a b, valid.bounded)

  line_of : (px py : ℕ) → px < s.width → (py * (s.pitch / 4) + px) / (s.pitch / 4) ≡ py
  line_of px py a = div-eq_of_lt-le (s.pitch / 4) (omega arith) (omega (arith, a, valid.wide))

  -- Two pixels of the screen with the same word are the same.
  offset_inj :
      (px py qx qy : ℕ)
      → px < s.width
      → py < s.height
      → qx < s.width
      → qy < s.height
      → offset s px py ≡ offset s qx qy
      → (px ≡ qx) × (py ≡ qy)
  offset_inj px py qx qy a b c d e =
      let words : py * (s.pitch / 4) + px ≡ qy * (s.pitch / 4) + qx =
        sym (offset-plain px py a b) ∙ e ∙ offset-plain qx qy c d in
      let lines : py ≡ qy =
        sym (line_of px py a) ∙ ap (λ t. t / (s.pitch / 4)) words ∙ line_of qx qy c in
      let starts : py * (s.pitch / 4) ≡ qy * (s.pitch / 4) = ap (λ t. t * (s.pitch / 4)) lines in
      (omega (arith, words, starts), lines)

  -- On a screen that is there, whose lines fit into its words and whose offsets do not wrap, for a rectangle
  -- whose edges do not wrap: fill_rect gives the pixels of the screen that lie in the rectangle the color,
  -- and leaves all its others as they were.
  pub fill_rect_lem :
      (x y w h color px py : ℕ) (m : Words)
      → x + w ≤ u32
      → y + h ≤ u32
      → px < s.width
      → py < s.height
      → fill_rect s x y w h color m (offset s px py)
        ≡ (if in_rect x y w h px py then color else m (offset s px py))
  unfolding fill_rect
  fill_rect_lem x y w h color px py m right bottom a b = elim (Bool-cases (in_rect x y w h px py)) [
    | inl inside ↦
        let ex : x + (px - x) ≡ px = ground (arith, inside) in
        let ey : y + (py - y) ≡ py = ground (arith, inside) in
        rw inside (
          subst (λ q. fill_rect s x y w h color m (offset s q py) ≡ color) ex
            (subst (λ q. fill_rect s x y w h color m (offset s (x + (px - x)) q) ≡ color) ey
              (rows-hit s color x y w h 0 (px - x) (py - y) m valid.there right (omega arith)
                (ground (arith, inside)) (omega arith) (ground (arith, inside)) (omega arith)
                (omega arith))))
    | inr outside ↦ rw outside (
        rows-kept s color x y w h 0 (offset s px py) m right (omega arith) λ i j c d e f g same.
          let (qx, qy) = offset_inj (x + i) (y + j) px py f g a b same in
          ground (arith, outside, qx, qy, c, e))
  ]

  -- On such a screen, whatever rectangle is filled whose edges do not wrap: words behind the framebuffer's
  -- lines are left alone.
  pub fill_rect-bounds :
      (x y w h color k : ℕ) (m : Words)
      → x + w ≤ u32
      → y + h ≤ u32
      → s.pitch / 4 * s.height ≤ k
      → fill_rect s x y w h color m k ≡ m k
  unfolding fill_rect
  fill_rect-bounds x y w h color k m right bottom behind =
      rows-kept s color x y w h 0 k m right (omega arith) λ i j a b c d e same.
        omega (arith, same, offset-lt (x + i) (y + j) d e, offset-plain (x + i) (y + j) d e, behind)

clear_words_lem :
    (color n i k : ℕ) (m : Words)
    → clear_words color n i m k ≡ (if leb i k && ltb k (i + n) then color else m k)
unfolding clear_words
clear_words_lem color zero i k m =
    let out : leb i k && ltb k (i + 0) ≡ false = ground arith in rw out refl
clear_words_lem color (suc n) i k m =
    clear_words_lem color n (i + 1) k (write_word i color m) ∙ ground arith

clear_lem :
    (s : Screen) (color k : ℕ) (m : Words)
    → IsValid s
    → k < s.pitch / 4 * s.height
    → clear s color m k ≡ color
unfolding clear
clear_lem s color k m valid inside =
    let there : s.fb == 0 ≡ false = ground (arith, valid.there) in
    let plain : s.pitch / 4 * s.height % u32 ≡ s.pitch / 4 * s.height =
      omega (arith, valid.bounded) in
    let within : leb 0 k && ltb k (0 + s.pitch / 4 * s.height) ≡ true = ground (arith, inside) in
    rw (there, plain, clear_words_lem color (s.pitch / 4 * s.height) 0 k m, within) refl

-- The screen that VideoCore's answer gives.
abbrev pub answered : List ℕ → Screen
answered buf = record {
  fb = bit_and (get_or buf 23 0) 0x3FFFFFFF;
  width = 1920;
  height = 1080;
  pitch = get_or buf 28 0;
  depth = 32;
}

on_display-answered :
    (call : Mailbox) (s : Screen) (m : Words) (buf : List ℕ)
    → call (message 1920 1080 32) ≡ (true, buf)
    → (answered buf).fb ≢ 0
    → 0 < get_or buf 24 0
    → ((on_display call s m).0 ≡ answered buf)
      × ((on_display call s m).1 ≡ clear (answered buf) dark m)
unfolding on_display init_framebuffer
on_display-answered call s m buf e there some_size =
    let found : (answered buf).fb == 0 ≡ false = ground (arith, there) in
    let sized : ltb 0 (get_or buf 24 0) ≡ true = ground (arith, some_size) in
    rw (e, found, sized) (refl, refl)

abbrev pub playing : Text → Notification
playing path = record { path = path; key = codes "state"; value = codes "playing" }

on_status-playing :
    (t : Screen) (v : Words) (path : Text) (px py : ℕ)
    → IsValid t
    → t.width ≡ 1920
    → t.height ≡ 1080
    → px < 1920
    → py < 1080
    → on_status t (playing path) v (offset t px py)
      ≡ (if leb 1040 py then clay else v (offset t px py))
unfolding on_status
on_status-playing t v path px py valid wide high a b =
    let found : t.fb == 0 ≡ false = ground (arith, valid.there) in
    let inside : in_rect 0 1040 1920 40 px py ≡ leb 1040 py = ground (arith, a, b) in
    rw (found, text_eq_refl (codes "state"), text_eq_refl (codes "playing"), sym inside)
      (fill_rect_lem t valid 0 1040 1920 40 clay px py v (omega arith) (omega arith)
        (omega (arith, a, wide)) (omega (arith, b, high)))

-- Once VideoCore has answered with a framebuffer whose lines fit and whose words do not wrap, and the audio
-- status then says "playing": every pixel of the lower 40 lines is clay, and every other one dark.
pub on_status-on_display :
    (call : Mailbox) (s : Screen) (m : Words) (buf : List ℕ) (path : Text) (px py : ℕ)
    → call (message 1920 1080 32) ≡ (true, buf)
    → IsValid (answered buf)
    → 0 < get_or buf 24 0
    → px < 1920
    → py < 1080
    → on_status
        (on_display call s m).0
        (playing path)
        (on_display call s m).1
        (offset (on_display call s m).0 px py)
      ≡ (if leb 1040 py then clay else dark)
on_status-on_display call s m buf path px py e valid some_size a b =
    let (screen, words) = on_display-answered call s m buf e valid.there some_size in
    let t : Screen = (on_display call s m).0 in
    let k : ℕ = offset (answered buf) px py in
    let blank : clear (answered buf) dark m k ≡ dark = clear_lem (answered buf) dark k m valid (
      omega (
        arith,
        offset-lt (answered buf) valid px py a b,
        offset-plain (answered buf) valid px py a b,
      )) in
    let shown : (on_display call s m).1 (offset t px py) ≡ dark =
      ap (λ f. f (offset t px py)) words
      ∙ ap (λ q. clear (answered buf) dark m (offset q px py)) screen
      ∙ blank in
    on_status-playing t (on_display call s m).1 path px py (subst IsValid (sym screen) valid)
      (ap (λ q. q.width) screen) (ap (λ q. q.height) screen) a b
    ∙ ap (λ q. if leb 1040 py then clay else q) shown
