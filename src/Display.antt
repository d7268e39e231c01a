-- ===== src/Display.antt =====
-- src/apps/displaymgr.cpp: the framebuffer, its drawing, and the handlers of its commands.
pub mod Message
pub mod Drawing
pub mod Pixels
mod Tests
pub mod Mailbox
use rp4_demo.Base.{
  ℕ, zero, suc, ◌+◌, ◌-◌, ◌*◌, ◌/◌, ◌%◌, ◌^◌, Bool, true, false, not, ◌&&◌, ◌||◌, List, [], ◌∷◌,
  leb, ltb, ◌==◌, if◌then◌else◌, Text, codes, text_eq, get_or, to_string,
}
use Prim.Native.Nat.{bit_and}
use rp4_demo.Pps.{Event, publish, print, Notification}

abbrev pub u32 : ℕ
u32 = 2 ^ 32

abbrev pub tag_set_phys_wh : ℕ
tag_set_phys_wh = 0x00048003

abbrev pub tag_set_virt_wh : ℕ
tag_set_virt_wh = 0x00048004

abbrev pub tag_set_depth : ℕ
tag_set_depth = 0x00048005

abbrev pub tag_set_pixel_order : ℕ
tag_set_pixel_order = 0x00048006

abbrev pub tag_alloc_buffer : ℕ
tag_alloc_buffer = 0x00040001

abbrev pub tag_get_pitch : ℕ
tag_get_pitch = 0x00040008

-- `g_fb` with 0 for null, and the other static variables. The words of the framebuffer are apart.
pub record Screen : Type 0 where
  pub fb : ℕ
  pub width : ℕ
  pub height : ℕ
  pub pitch : ℕ
  pub depth : ℕ

abbrev pub no_screen : Screen
no_screen = record { fb = 0; width = 0; height = 0; pitch = 0; depth = 0 }

-- What `init_framebuffer` puts in `buf`, less the words behind the end tag.
pub message : ℕ → ℕ → ℕ → List ℕ
message w h depth =
    30 * 4
    ∷ 0
    ∷ tag_set_phys_wh
    ∷ 8
    ∷ 0
    ∷ w
    ∷ h
    ∷ tag_set_virt_wh
    ∷ 8
    ∷ 0
    ∷ w
    ∷ h
    ∷ tag_set_depth
    ∷ 4
    ∷ 0
    ∷ depth
    ∷ tag_set_pixel_order
    ∷ 4
    ∷ 0
    ∷ 1
    ∷ tag_alloc_buffer
    ∷ 8
    ∷ 0
    ∷ 4096
    ∷ 0
    ∷ tag_get_pitch
    ∷ 4
    ∷ 0
    ∷ 0
    ∷ 0
    ∷ []

-- `mbox::call`: whether VideoCore took the message, and the buffer with its answer.
abbrev pub Mailbox : Type 0
Mailbox = List ℕ → Bool × List ℕ

pub init_framebuffer : Mailbox → ℕ → ℕ → ℕ → Screen → Screen × Bool
unfolding message
init_framebuffer call w h depth s =
    let (ok, buf) = call (message w h depth) in
    let fb_addr = bit_and (get_or buf 23 0) 0x3FFFFFFF in
    if not ok then (s, false) else (
      record { fb = fb_addr; width = w; height = h; pitch = get_or buf 28 0; depth = depth },
      not (fb_addr == 0) && ltb 0 (get_or buf 24 0),
    )

-- The words behind `g_fb`.
abbrev pub Words : Type 0
Words = ℕ → ℕ

abbrev pub write_word : ℕ → ℕ → Words → Words
write_word offset color m = λ k. if k == offset then color else m k

-- `y * (g_pitch / 4) + x`
abbrev pub offset : Screen → ℕ → ℕ → ℕ
offset s x y = (y * (s.pitch / 4) + x) % u32

pub put_pixel : Screen → ℕ → ℕ → ℕ → Words → Words
put_pixel s x y color m =
    if s.fb == 0 || (leb s.width x || leb s.height y) then m else write_word (offset s x y) color m

-- The inner loop with `n` rounds left.
pub fill_row : Screen → ℕ → ℕ → ℕ → ℕ → ℕ → Words → Words
unfolding put_pixel
fill_row s x y color zero dx m = m
fill_row s x y color (suc n) dx m =
    fill_row s x y color n (dx + 1) (put_pixel s ((x + dx) % u32) y color m)

-- The outer loop with `n` rounds left.
pub fill_rows : Screen → ℕ → ℕ → ℕ → ℕ → ℕ → ℕ → Words → Words
unfolding fill_row
fill_rows s x y w color zero dy m = m
fill_rows s x y w color (suc n) dy m =
    fill_rows s x y w color n (dy + 1) (fill_row s x ((y + dy) % u32) color w 0 m)

pub fill_rect : Screen → ℕ → ℕ → ℕ → ℕ → ℕ → Words → Words
unfolding fill_rows
fill_rect s x y w h color m = fill_rows s x y w color h 0 m

pub clear_words : ℕ → ℕ → ℕ → Words → Words
clear_words color zero i m = m
clear_words color (suc n) i m = clear_words color n (i + 1) (write_word i color m)

pub clear : Screen → ℕ → Words → Words
unfolding clear_words
clear s color m = if s.fb == 0 then m else clear_words color (s.pitch / 4 * s.height % u32) 0 m

abbrev pub dark : ℕ
dark = 0x000F0C07

abbrev pub clay : ℕ
clay = 0x00C4924A

abbrev status : Text
status = codes "/pps/display/status"

-- The handler of /pps/cmd/display. The words are those behind the new `g_fb`.
pub on_display : Mailbox → Screen → Words → Screen × Words × List Event
unfolding init_framebuffer clear
on_display call s m =
    let (s', ready) = init_framebuffer call 1920 1080 32 s in
    let start = print (codes "displaymgr: init 1920x1080x32...\n") in
    if ready
    then (
      s',
      clear s' dark m,
      start
          ∷ publish status (codes "state") (codes "ready")
          ∷ publish status (codes "width") (codes "1920")
          ∷ publish status (codes "height") (codes "1080")
          ∷ publish status (codes "depth") (codes "32")
          ∷ publish status (codes "pitch") (to_string s'.pitch)
          ∷ print (codes "displaymgr: framebuffer ready\n")
          ∷ [],
    )
    else (
      s',
      m,
      start
          ∷ publish status (codes "state") (codes "no HDMI")
          ∷ print (codes "displaymgr: no HDMI connected\n")
          ∷ [],
    )

-- The handler of /pps/audio/status.
pub on_status : Screen → Notification → Words → Words
on_status s n m =
    if s.fb == 0
    then m
    else if text_eq n.key (codes "state") && text_eq n.value (codes "playing")
    then fill_rect s 0 1040 1920 40 clay m
    else if text_eq n.key (codes "state") && text_eq n.value (codes "idle")
    then fill_rect s 0 1040 1920 40 dark m
    else m

-- What the entry publishes of itself behind the subscriptions.
pub at_start : List Event
at_start = publish (codes "/pps/cmd/display") (codes "value") (codes "1") ∷ []
