-- ===== src/Display/Message.antt =====
-- The property message of src/apps/displaymgr.cpp read back as VideoCore reads it, and what
-- `init_framebuffer` takes from the answer.
use rp4_demo.Base.{
  ℕ, zero, suc, ◌+◌, ◌*◌, ◌/◌, ◌≡◌, refl, List, [], ◌∷◌, ◌==◌, if◌then◌else◌, Option, none, some,
  take, drop, length, leb, ltb, get_or, ◌≢◌, ◌<◌, ◌⊎◌, inl, inr, true, false, Bool-cases, arith,
}
use Prim.Native.Nat.{bit_and}
use rp4_demo.Display.{
  Mailbox, Screen, init_framebuffer, message, tag_set_phys_wh, tag_set_virt_wh, tag_set_depth,
  tag_set_pixel_order, tag_alloc_buffer, tag_get_pitch,
}

-- A tag, the word at which its values start, and the values.
abbrev pub Tag : Type 0
Tag = ℕ × ℕ × List ℕ

abbrev pub cons : Tag → Option (List Tag) → Option (List Tag)
cons t none = none
cons t (some ts) = some (t ∷ ts)

-- The tags from word `at` on, with fuel: a tag, the size of its values in bytes, a request code of 0, and
-- the values. A zero ends them, and must be the last word.
pub tags : ℕ → ℕ → List ℕ → Option (List Tag)
tags zero at ws = none
tags (suc f) at (zero ∷ []) = some []
tags (suc f) at (tag ∷ bytes ∷ zero ∷ ws) =
    let rest = tags f (at + 3 + bytes / 4) (drop (bytes / 4) ws) in
    if leb (bytes / 4) (length ws) then cons (tag, at + 3, take (bytes / 4) ws) rest else none
tags (suc f) at ws = none

-- A message: its size in bytes, which must be that of its words, a request code of 0, and the tags.
pub decode : List ℕ → Option (List Tag)
unfolding tags
decode (size ∷ zero ∷ ws) =
    if size == (2 + length ws) * 4 then tags (suc (length ws)) 2 ws else none
decode ws = none

-- The tags of the message for a size and a depth.
abbrev message_tags : ℕ → ℕ → ℕ → List Tag
message_tags w h depth =
    (tag_set_phys_wh, 5, w ∷ h ∷ [])
    ∷ (tag_set_virt_wh, 10, w ∷ h ∷ [])
    ∷ (tag_set_depth, 15, depth ∷ [])
    ∷ (tag_set_pixel_order, 19, 1 ∷ [])
    ∷ (tag_alloc_buffer, 23, 4096 ∷ 0 ∷ [])
    ∷ (tag_get_pitch, 28, 0 ∷ [])
    ∷ []

-- The tags and the values that are asked for, without their places.
abbrev pub asked : List Tag → List (ℕ × List ℕ)
asked [] = []
asked ((tag, at, values) ∷ ts) = (tag, values) ∷ asked ts

-- Value `i` of a tag in an answer, which stands at the place of that tag's value in the message.
abbrev pub word_of : ℕ → ℕ → List Tag → List ℕ → ℕ
word_of tag i [] buf = 0
word_of tag i ((t, at, values) ∷ ts) buf =
    if tag == t then get_or buf (at + i) 0 else word_of tag i ts buf

decode-message : (w h depth : ℕ) → decode (message w h depth) ≡ some (message_tags w h depth)
unfolding decode tags message
decode-message w h depth = refl

-- The screen that VideoCore's answer describes.
abbrev pub described : ℕ → ℕ → ℕ → List Tag → List ℕ → Screen
described w h depth ts buf = record {
  fb = bit_and (word_of tag_alloc_buffer 0 ts buf) 0x3FFFFFFF;
  width = w;
  height = h;
  pitch = word_of tag_get_pitch 0 ts buf;
  depth = depth;
}

-- For every mailbox, size and depth the message that init_framebuffer sends is well formed: it asks for the
-- physical and the virtual size, the depth, the order RGB, a buffer on whole pages and the pitch, in this
-- order. Where the call fails, init_framebuffer fails and keeps the screen. Otherwise the screen gets the
-- size and the depth, the bus address that is answered at the buffer's tag without its upper two bits, and
-- the pitch that is answered at the pitch's tag; and init_framebuffer succeeds exactly where that address
-- and the size that is answered at the buffer's tag are not 0.
pub init_framebuffer_lem :
    (call : Mailbox) (w h depth : ℕ) (s : Screen)
    → (ts : List Tag) × (decode (message w h depth) ≡ some ts)
      × (asked ts
          ≡ (tag_set_phys_wh, w ∷ h ∷ [])
            ∷ (tag_set_virt_wh, w ∷ h ∷ [])
            ∷ (tag_set_depth, depth ∷ [])
            ∷ (tag_set_pixel_order, 1 ∷ [])
            ∷ (tag_alloc_buffer, 4096 ∷ 0 ∷ [])
            ∷ (tag_get_pitch, 0 ∷ [])
            ∷ [])
      × ((((call (message w h depth)).0 ≡ false) × (init_framebuffer call w h depth s ≡ (s, false)))
          ⊎ (((call (message w h depth)).0 ≡ true)
              × ((init_framebuffer call w h depth s).0
                  ≡ described w h depth ts (call (message w h depth)).1)
              × ((((init_framebuffer call w h depth s).1 ≡ true)
                    × ((described w h depth ts (call (message w h depth)).1).fb ≢ 0)
                    × (0 < word_of tag_alloc_buffer 1 ts (call (message w h depth)).1))
                  ⊎ (((init_framebuffer call w h depth s).1 ≡ false)
                      × (((described w h depth ts (call (message w h depth)).1).fb ≡ 0)
                          ⊎ (word_of tag_alloc_buffer 1 ts (call (message w h depth)).1 ≡ 0))))))
unfolding init_framebuffer
init_framebuffer_lem call w h depth s =
    let buf : List ℕ = (call (message w h depth)).1 in
    let fb : ℕ = bit_and (get_or buf 23 0) 0x3FFFFFFF in
    (
      message_tags w h depth,
      decode-message w h depth,
      refl,
      elim (Bool-cases (call (message w h depth)).0) [
        | inr failed ↦ inl (failed, rw failed refl)
        | inl done ↦ elim (Bool-cases (fb == 0)) [
          | inl null ↦
              inr (done, rw done refl, inr (rw (done, null) refl, inl (ground (arith, null))))
          | inr here ↦ elim (Bool-cases (ltb 0 (get_or buf 24 0))) [
            | inl big ↦ inr (
              done,
              rw done refl,
              inl (rw (done, here, big) refl, ground (arith, here), ground (arith, big)),
            )
            | inr empty ↦
                inr (
                  done,
                  rw done refl,
                  inr (rw (done, here, empty) refl, inr (ground (arith, empty))),
                )
          ]
        ]
      ],
    )
