-- ===== src/Display/Tests.antt =====
-- The theorems on src/apps/displaymgr.cpp at concrete screens.
use rp4_demo.Base.{
  ℕ, ◌≡◌, refl, [], ◌∷◌, ◌++◌, some, true, false, set, ◌≢◌, ◌<◌, ◌⊎◌, List, replicate, leb,
  if◌then◌else◌, arith,
}
use rp4_demo.Display.{
  Screen, init_framebuffer, no_screen, offset, fill_rect, message, Mailbox, on_display, on_status,
  dark, clay, tag_set_phys_wh, tag_set_virt_wh, tag_set_depth, tag_set_pixel_order,
  tag_alloc_buffer, tag_get_pitch,
}
use rp4_demo.Display.Message.{Tag, decode, asked, word_of, described, init_framebuffer_lem}
use rp4_demo.Display.Pixels.{
  IsValid, in_rect, answered, playing, fill_rect_lem, on_status-on_display,
}

-- A mailbox that answers with a buffer at 0xC0010000 of 1228800 bytes and a pitch of 2560.
abbrev answering : Mailbox
answering ws = (true, set (set (set ws 23 0xC0010000) 24 1228800) 28 2560)

abbrev sent : List ℕ
sent = message 640 480 32

init_framebuffer_lem_example :
    (ts : List Tag) × (decode sent ≡ some ts)
    × (asked ts
        ≡ (tag_set_phys_wh, 640 ∷ 480 ∷ [])
          ∷ (tag_set_virt_wh, 640 ∷ 480 ∷ [])
          ∷ (tag_set_depth, 32 ∷ [])
          ∷ (tag_set_pixel_order, 1 ∷ [])
          ∷ (tag_alloc_buffer, 4096 ∷ 0 ∷ [])
          ∷ (tag_get_pitch, 0 ∷ [])
          ∷ [])
    × ((((answering sent).0 ≡ false)
          × (init_framebuffer answering 640 480 32 no_screen ≡ (no_screen, false)))
        ⊎ (((answering sent).0 ≡ true)
            × ((init_framebuffer answering 640 480 32 no_screen).0
                ≡ described 640 480 32 ts (answering sent).1)
            × ((((init_framebuffer answering 640 480 32 no_screen).1 ≡ true)
                  × ((described 640 480 32 ts (answering sent).1).fb ≢ 0)
                  × (0 < word_of tag_alloc_buffer 1 ts (answering sent).1))
                ⊎ (((init_framebuffer answering 640 480 32 no_screen).1 ≡ false)
                    × (((described 640 480 32 ts (answering sent).1).fb ≡ 0)
                        ⊎ (word_of tag_alloc_buffer 1 ts (answering sent).1 ≡ 0))))))
init_framebuffer_lem_example = init_framebuffer_lem answering 640 480 32 no_screen

-- Four by three pixels, in lines of five words.
abbrev small : Screen
small = record { fb = 4096; width = 4; height = 3; pitch = 20; depth = 32 }

small-IsValid : IsValid small
small-IsValid = record { there = omega arith; wide = omega arith; bounded = omega arith }

fill_rect_lem_example :
    fill_rect small 1 1 2 9 7 (λ k. 0) (offset small 2 2) ≡ (if in_rect 1 1 2 9 2 2 then 7 else 0)
fill_rect_lem_example =
    fill_rect_lem small small-IsValid 1 1 2 9 7 2 2 (λ k. 0) (omega arith) (omega arith)
      (omega arith) (omega arith)

-- The answer of a mailbox that gives a buffer at 4096 with lines of 7680 bytes.
abbrev answer : List ℕ
answer = replicate 23 0 ++ 4096 ∷ 8294400 ∷ 0 ∷ 0 ∷ 0 ∷ 7680 ∷ []

abbrev mailbox : Mailbox
mailbox = λ ws. (true, answer)

answer-IsValid : IsValid (answered answer)
answer-IsValid = record { there = omega arith; wide = omega arith; bounded = omega arith }

on_status-on_display_example :
    on_status
      (on_display mailbox no_screen (λ k. 0)).0
      (playing [])
      (on_display mailbox no_screen (λ k. 0)).1
      (offset (on_display mailbox no_screen (λ k. 0)).0 100 1050)
    ≡ (if leb 1040 1050 then clay else dark)
on_status-on_display_example =
    on_status-on_display mailbox no_screen (λ k. 0) answer [] 100 1050 refl answer-IsValid
      (omega arith) (omega arith) (omega arith)
