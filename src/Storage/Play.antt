-- ===== src/Storage/Play.antt =====
-- The handlers of src/apps/storagemgr.cpp. The SD card and the decoders are third-party code: what their
-- calls return in a run is a parameter, and what the code asks of them is an effect.
pub mod Resources
use rp4_demo.Base.{
  ℕ, zero, suc, ◌+◌, ◌*◌, ◌/◌, ◌%◌, ◌^◌, Bool, true, false, not, ◌||◌, Option, none, some, List, [],
  ◌∷◌, ◌++◌, ltb, leb, ◌==◌, if◌then◌else◌, Text, codes, length, replicate, take, to_string, get_or,
  text_eq,
}
use rp4_demo.Pps.{Event, publish, print}
use rp4_demo.Storage.Formats.{
  AudioFmt, unknown, dsf, dff, flac, mp3, wav, aiff, wvpk, ape, ogg, m4a, detect_format, tag_at,
}
use rp4_demo.Storage.Dsd.{DsfHeader, parse_dsf, pack_dop, frames}
use rp4_demo.Storage.Tags.{TrackMeta, copy_tag_value, copy_into, publish_meta, publish_pcm}

-- The blocks that a run of `play` asks for: `fbuf`, `dsd`, `dop`, the `pcm` that it allocates, and the one
-- that a decoder allocates for it.
pub data Block : Type 0 where
  file_block dsd_block dop_block pcm_block decoded_block : Block

pub data Effect : Type 0 where
  event : Event → Effect
  -- `f_open` of a path, where it succeeds, and `f_close`
  opened : Text → Effect
  closed : Effect
  -- `f_read` of at most so many bytes, and `f_lseek`
  read : ℕ → Effect
  seek : ℕ → Effect
  -- an allocation that is granted, of so many bytes; a decoder's result has no size here
  allocated : Block → ℕ → Effect
  freed : Block → Effect
  -- `drflac_open_with_metadata` and the decoders that read a block; `drflac_close`
  decode : Effect
  flac_opened flac_closed : Effect

-- A metadata block of a FLAC file: the comments, or a picture's size where it has data.
pub data MetaBlock : Type 0 where
  vorbis_comments : List Text → MetaBlock
  picture : Option ℕ → MetaBlock
  other_block : MetaBlock

pub record Flac : Type 0 where
  pub blocks : List MetaBlock
  pub total : ℕ
  pub channels : ℕ
  pub sample_rate : ℕ

-- What `dr_mp3` and `dr_wav` give: frames, channels and rate.
pub record Pcm : Type 0 where
  pub frame_count : ℕ
  pub channels : ℕ
  pub sample_rate : ℕ

-- What the calls return in a run. `granted` says which blocks are granted.
pub record Answers : Type 0 where
  pub found : Bool
  pub magic : Text
  pub size : ℕ
  pub granted : Block → Bool
  pub flac_file : Option Flac
  pub mp3_file : Option Pcm
  pub wav_file : Option Pcm
  pub dsf_hdr : Text
  pub dsf_fmt : Text
  pub dsf_data : Text

abbrev pub audio_status : Text → Text → Effect
audio_status key value = event (publish (codes "/pps/audio/status") key value)

abbrev pub storage_status : Text → Text → Effect
storage_status key value = event (publish (codes "/pps/storage/status") key value)

abbrev pub events : List Event → List Effect
events [] = []
events (e ∷ es) = event e ∷ events es

-- `fmt_names[fi]` and `fmt_magic[fi]`
pub fmt_name : AudioFmt → Text
fmt_name unknown = codes "unknown"
fmt_name dsf = codes "DSF (DSD)"
fmt_name dff = codes "DFF (DSDIFF)"
fmt_name flac = codes "FLAC"
fmt_name mp3 = codes "MP3"
fmt_name wav = codes "WAV"
fmt_name aiff = codes "AIFF"
fmt_name wvpk = codes "WavPack"
fmt_name ape = codes "APE"
fmt_name ogg = codes "Ogg"
fmt_name m4a = codes "M4A/AAC/ALAC"

pub fmt_magic : AudioFmt → Text
fmt_magic unknown = codes "??"
fmt_magic dsf = codes "44 53 44 20"
fmt_magic dff = codes "46 52 4D 38"
fmt_magic flac = codes "66 4C 61 43"
fmt_magic mp3 = codes "49 44 33"
fmt_magic wav = codes "52 49 46 46"
fmt_magic aiff = codes "46 4F 52 4D"
fmt_magic wvpk = codes "77 76 70 6B"
fmt_magic ape = codes "4D 41 43 20"
fmt_magic ogg = codes "4F 67 67 53"
fmt_magic m4a = codes "66 74 79 70"

-- `TrackMeta mctx{}`
abbrev pub no_meta : TrackMeta
no_meta = record {
  artist = replicate 128 0;
  album = replicate 128 0;
  title = replicate 128 0;
  track_number = 0;
  cover = none;
}

-- The loop over the comments of a block, with `try_tag` for three keys.
pub try_tags : List Text → TrackMeta → TrackMeta
try_tags [] m = m
try_tags (c ∷ cs) m = try_tags cs (record m {
  artist = copy_tag_value c (codes "ARTIST") m.artist;
  album = copy_tag_value c (codes "ALBUM") m.album;
  title = copy_tag_value c (codes "TITLE") m.title;
})

-- `meta_cb`, called for each block.
pub meta_cb : List MetaBlock → TrackMeta → TrackMeta
unfolding try_tags
meta_cb [] m = m
meta_cb (vorbis_comments cs ∷ bs) m = meta_cb bs (try_tags cs m)
meta_cb (picture none ∷ bs) m = meta_cb bs m
meta_cb (picture (some n) ∷ bs) m = meta_cb bs (if ltb 0 n then record m { cover = some n } else m)
meta_cb (other_block ∷ bs) m = meta_cb bs m

-- The title falls back to the name that was asked for.
pub with_title : Text → TrackMeta → TrackMeta
with_title name m =
    if get_or m.title 0 0 == 0 then record m { title = copy_into m.title name } else m

-- The allocation of a block, where it is granted, and what is done with it.
pub with_block : Answers → Block → ℕ → List Effect → List Effect
with_block a b n rest = if a.granted b then allocated b n ∷ rest else []

abbrev pub size_mod : ℕ
size_mod = 2 ^ 64

-- The branch of FLAC. `publish_pcm` does nothing with a null block.
pub play_flac : Answers → Text → List Effect
unfolding meta_cb with_title
play_flac a name = elim a.flac_file [
  | none ↦ closed ∷ []
  | some f ↦
      let samples = f.total * f.channels % size_mod in
      let m = with_title name (meta_cb f.blocks no_meta) in
      let meta = events (publish_meta m) in
      let rest = flac_closed ∷ closed ∷ [] in
      flac_opened
      ∷ (if a.granted pcm_block
          then allocated pcm_block (samples * 2 % size_mod) ∷ decode ∷ meta
            ++ events (publish_pcm name samples f.sample_rate f.channels)
            ++ rest
          else meta ++ rest)
]

-- The branches of MP3, WAV and AIFF: the whole file is read into a block, which is freed behind the
-- decoder. The decoder's result is not freed.
pub play_whole : Answers → Option Pcm → Text → List Effect
unfolding with_block
play_whole a result name =
    with_block a file_block a.size (
      read (a.size % 2 ^ 32) ∷ decode ∷ elim result [
        | none ↦ freed file_block ∷ []
        | some p ↦
            allocated decoded_block 0
            ∷ freed file_block
            ∷ events
                (publish_pcm name (p.frame_count * p.channels % size_mod) p.sample_rate p.channels)
      ])
    ++ closed ∷ []

-- The reads of `parse_dsf`, up to the one that it stops at.
pub parse_reads : Text → Text → List Effect
parse_reads hdr fmt =
    read 28
    ∷ (if ltb (length hdr) 28 || not (tag_at 0 (codes "DSD ") hdr)
        then []
        else read 52
          ∷ (if ltb (length fmt) 52 || not (tag_at 0 (codes "fmt ") fmt)
              then []
              else seek (28 + 52) ∷ read 12 ∷ []))

-- What is published of a DSF file once it is packed.
pub publish_dop : Text → DsfHeader → ℕ → List Event
publish_dop name h dop_frames =
    publish (codes "/pps/audio/status") (codes "title") name
    ∷ publish (codes "/pps/audio/status") (codes "format") (codes "DSD-over-PCM (DoP)")
    ∷ publish (codes "/pps/audio/status") (codes "sample_rate") (to_string h.sample_rate)
    ∷ publish (codes "/pps/audio/status") (codes "channels") (to_string h.channels)
    ∷ publish (codes "/pps/audio/status") (codes "bits_per_sample") (codes "DSD/1-bit")
    ∷ publish (codes "/pps/cmd/store") (codes "value")
        (name ++ codes " 0 " ++ to_string (dop_frames * h.channels * 4 % size_mod))
    ∷ publish (codes "/pps/storage/status") (codes "state") (codes "decoded (DoP)")
    ∷ []

-- The branch of DSF and DFF.
pub play_dsd : Answers → Text → List Effect
unfolding with_block parse_reads publish_dop
play_dsd a name =
    let h = parse_dsf a.dsf_hdr a.dsf_fmt a.dsf_data in
    parse_reads a.dsf_hdr a.dsf_fmt
    ++ (if not h.valid
        then storage_status (codes "error") (codes "not valid DSF") ∷ closed ∷ []
        else with_block a dsd_block h.data_size (
            seek h.data_offset
              ∷ read (h.data_size % 2 ^ 32)
              ∷ with_block a dop_block (h.data_size * 2 * 4 % size_mod)
                  (events (publish_dop name h (h.data_size / 2)) ++ freed dop_block ∷ [])
            ++ freed dsd_block ∷ [])
          ++ closed ∷ [])

abbrev pub refuse : Text → List Effect
refuse why = storage_status (codes "error") why ∷ closed ∷ []

-- The branches of `play` behind the format.
pub play_format : AudioFmt → Answers → Text → List Effect
unfolding play_flac play_whole play_dsd
play_format flac a name = play_flac a name
play_format mp3 a name = play_whole a a.mp3_file name
play_format wav a name = play_whole a a.wav_file name
play_format aiff a name = play_whole a a.wav_file name
play_format dsf a name = play_dsd a name
play_format dff a name = play_dsd a name
play_format unknown a name = refuse (codes "unsupported format")
play_format _ a name = refuse (codes "format detected but decoder not yet linked")

-- The handler of /pps/cmd/play.
pub play : Answers → Text → List Effect
unfolding fmt_name fmt_magic play_format
play a name =
    let fmt = detect_format a.magic in
    storage_status (codes "decoding") name
    ∷ (if a.found
        then opened (take 255 name)
          ∷ seek 0
          ∷ read 16
          ∷ seek 0
          ∷ audio_status (codes "format") (fmt_name fmt)
          ∷ audio_status (codes "magic") (fmt_magic fmt)
          ∷ play_format fmt a name
        else storage_status (codes "error") (codes "file not found") ∷ [])

-- The listing of the handler of /pps/cmd/ls, from the names that `f_readdir` gives until it fails or gives
-- an empty one.
pub listing : List Text → Text
listing [] = []
listing ([] ∷ names) = []
listing ((c ∷ cs) ∷ names) = c ∷ cs ++ b'\n' ∷ listing names

-- The handler of /pps/cmd/ls; `none` where the directory does not open.
pub on_ls : Option (List Text) → List Event
unfolding listing
on_ls none = []
on_ls (some names) = publish (codes "/pps/storage/listing") (codes "files") (listing names) ∷ []

pub on_stop : List Event
on_stop = publish (codes "/pps/storage/status") (codes "state") (codes "idle") ∷ []

-- What `storagemgr_main` does before it subscribes; without a card it goes no further.
pub on_mount_card : Bool → List Event
on_mount_card mounted =
    if mounted
    then publish (codes "/pps/storage/status") (codes "mounted") (codes "true")
      ∷ print (codes "storagemgr: SD mounted\n")
      ∷ []
    else publish (codes "/pps/storage/status") (codes "mounted") (codes "false")
      ∷ print (codes "storagemgr: SD mount failed\n")
      ∷ []
