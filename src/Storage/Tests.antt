-- ===== src/Storage/Tests.antt =====
-- The theorems on tracks (src/apps/storagemgr.cpp) at concrete inputs.
use rp4_demo.Base.{
  ◌+◌, ◌/◌, ◌%◌, ◌^◌, ◌≡◌, true, false, none, some, [], ◌∷◌, ◌==◌, if◌then◌else◌, arith, codes,
  get_or,
}
use rp4_demo.Storage.Dsd.{pack_dop, dsd_byte, marker_of, get_or-pack_dop}
use rp4_demo.Storage.Formats.{detect_format}
use rp4_demo.Storage.Play.{Answers, play}
use rp4_demo.Storage.Play.Resources.{held, nothing, left_behind, play_lem}

get_or-pack_dop_example :
    (dsd_byte (get_or (pack_dop false (1 ∷ 2 ∷ 3 ∷ 4 ∷ [])) 3 0) ≡ get_or (1 ∷ 2 ∷ 3 ∷ 4 ∷ []) 3 0)
    × (get_or (pack_dop false (1 ∷ 2 ∷ 3 ∷ 4 ∷ [])) 3 0 % 2 ^ 8 ≡ 0)
    × (marker_of (get_or (pack_dop false (1 ∷ 2 ∷ 3 ∷ 4 ∷ [])) 3 0)
        ≡ (if (3 / 2 + 0) % 2 == 0 then 0x05 else 0xFA))
get_or-pack_dop_example =
    get_or-pack_dop (1 ∷ 2 ∷ 3 ∷ 4 ∷ []) 3
      (omega arith, (omega arith, (omega arith, (omega arith, tt)))) (omega arith)

-- A card with one MP3 file, and room for every block.
abbrev one_song : Answers
one_song = record {
  found = true;
  magic = codes "ID3 this is a tag";
  size = 4096;
  granted = λ b. true;
  flac_file = none;
  mp3_file = some (record { frame_count = 1152; channels = 2; sample_rate = 44100 });
  wav_file = none;
  dsf_hdr = [];
  dsf_fmt = [];
  dsf_data = [];
}

play_lem_example :
    held (play one_song (codes "a.mp3")) nothing
    ≡ some (record nothing {
      opened_once = true;
      blocks = left_behind (detect_format one_song.magic) one_song;
    })
play_lem_example = play_lem one_song (codes "a.mp3")
