-- ===== src/Storage/Play/Resources.antt =====
-- The file and the blocks of a run of `play` in src/apps/storagemgr.cpp.
use rp4_demo.Base.{
  ℕ, ◌*◌, ◌/◌, ◌%◌, ◌^◌, ◌≡◌, refl, ap, ◌∙◌, Bool, true, false, not, ◌&&◌, ◌||◌, Option, none, some,
  List, [], ◌∷◌, ◌++◌, append_assoc, ◌==◌, ltb, length, if◌then◌else◌, Text, codes, Bool-cases, inl,
  inr,
}
use rp4_demo.Pps.{Event, publish}
use rp4_demo.Storage.Formats.{
  AudioFmt, unknown, dsf, dff, flac, mp3, wav, aiff, wvpk, ape, ogg, m4a, detect_format, tag_at,
}
use rp4_demo.Storage.Dsd.{DsfHeader, parse_dsf}
use rp4_demo.Storage.Tags.{publish_meta, publish_pcm}
use rp4_demo.Storage.Play.{
  Block, file_block, dsd_block, dop_block, pcm_block, decoded_block, Effect, event, opened, closed,
  read, seek, allocated, freed, decode, flac_opened, flac_closed, Pcm, Flac, Answers, events, play,
  play_format, play_flac, play_whole, play_dsd, with_block, parse_reads, publish_dop, meta_cb,
  with_title, no_meta, size_mod,
}

-- What a run holds: the file, the FLAC decoder, and the blocks, the last one first; and whether it has
-- opened the file yet.
pub record Held : Type 0 where
  pub file : Bool
  pub opened_once : Bool
  pub flac_decoder : Bool
  pub blocks : List Block

abbrev block_code : Block → ℕ
block_code file_block = 0
block_code dsd_block = 1
block_code dop_block = 2
block_code pcm_block = 3
block_code decoded_block = 4

-- The blocks without one that is held.
pub release : Block → List Block → Option (List Block)
release b [] = none
release b (c ∷ cs) =
    if block_code b == block_code c
    then some cs
    else elim (release b cs) [ none ↦ none | some cs' ↦ some (c ∷ cs') ]

abbrev held_if : Bool → Held → Option Held
held_if ok s = if ok then some s else none

-- An effect, where it may be: the file is opened where it was not opened before, and used and closed only while it is open and not
-- the decoder's; a block is freed only while it is held.
pub step : Effect → Held → Option Held
unfolding release
step (event e) s = some s
step (opened path) s = held_if (not s.opened_once) (record s { file = true; opened_once = true })
step closed s = held_if (s.file && not s.flac_decoder) (record s { file = false })
step (read n) s = held_if s.file s
step (seek n) s = held_if s.file s
step (allocated b n) s = some (record s { blocks = b ∷ s.blocks })
step (freed b) s = elim (release b s.blocks) [
  | none ↦ none
  | some bs ↦ some (record s { blocks = bs })
]
step decode s = held_if s.file s
step flac_opened s = held_if (s.file && not s.flac_decoder) (record s { flac_decoder = true })
step flac_closed s = held_if s.flac_decoder (record s { flac_decoder = false })

-- What is held behind effects; `none` means that one of them was not allowed.
pub held : List Effect → Held → Option Held
unfolding step
held [] s = some s
held (e ∷ es) s = elim (step e s) [ none ↦ none | some s' ↦ held es s' ]

abbrev pub nothing : Held
nothing = record { file = false; opened_once = false; flac_decoder = false; blocks = [] }

abbrev opened_file : Held
opened_file = record { file = true; opened_once = true; flac_decoder = false; blocks = [] }

-- The samples that a run leaves behind: those that FLAC is decoded into, and the decoder's own.
abbrev pub flac_left : Answers → Option Flac → List Block
flac_left a none = []
flac_left a (some f) = if a.granted pcm_block then pcm_block ∷ [] else []

abbrev pub decoded_left : Answers → Option Pcm → List Block
decoded_left a none = []
decoded_left a (some p) = if a.granted file_block then decoded_block ∷ [] else []

abbrev pub left_behind : AudioFmt → Answers → List Block
left_behind flac a = flac_left a a.flac_file
left_behind mp3 a = decoded_left a a.mp3_file
left_behind wav a = decoded_left a a.wav_file
left_behind aiff a = decoded_left a a.wav_file
left_behind _ a = []

abbrev leaves : List Block → Option Held
leaves bs = some (record nothing { opened_once = true; blocks = bs })

held-events :
    (es : List Event) (rest : List Effect) (s : Held) → held (events es ++ rest) s ≡ held rest s
unfolding held step
held-events [] rest s = refl
held-events (e ∷ es) rest s = held-events es rest s

play_flac-held :
    (a : Answers) (name : Text) (r : Option Flac)
    → a.flac_file ≡ r
    → held (play_flac a name) opened_file ≡ leaves (flac_left a r)
unfolding play_flac held step
play_flac-held a name none e = rw e refl
play_flac-held a name (some f) e = elim (Bool-cases (a.granted pcm_block)) [
  | inl granted ↦
      let meta : List Event = publish_meta (with_title name (meta_cb f.blocks no_meta)) in
      let pcm : List Event =
        publish_pcm name (f.total * f.channels % size_mod) f.sample_rate f.channels in
      let s : Held = record {
        file = true;
        opened_once = true;
        flac_decoder = true;
        blocks = pcm_block ∷ [];
      } in
      rw (e, granted)
        (ap (λ es. held es s) (append_assoc (events meta) (events pcm) (flac_closed ∷ closed ∷ []))
          ∙ held-events meta (events pcm ++ flac_closed ∷ closed ∷ []) s
          ∙ held-events pcm (flac_closed ∷ closed ∷ []) s)
  | inr no_block ↦
      rw (e, no_block)
        (held-events (publish_meta (with_title name (meta_cb f.blocks no_meta)))
          (flac_closed ∷ closed ∷ [])
          (record { file = true; opened_once = true; flac_decoder = true; blocks = [] }))
]

play_whole-held :
    (a : Answers) (name : Text) (r : Option Pcm)
    → held (play_whole a r name) opened_file ≡ leaves (decoded_left a r)
unfolding play_whole with_block held step release
play_whole-held a name none = elim (Bool-cases (a.granted file_block)) [
  | inl granted ↦ rw granted refl
  | inr no_block ↦ rw no_block refl
]
play_whole-held a name (some p) = elim (Bool-cases (a.granted file_block)) [
  | inl granted ↦ rw granted (
      held-events
        (publish_pcm name (p.frame_count * p.channels % size_mod) p.sample_rate p.channels)
        (closed ∷ [])
        (record {
          file = true;
          opened_once = true;
          flac_decoder = false;
          blocks = decoded_block ∷ [];
        }))
  | inr no_block ↦ rw no_block refl
]

parse_reads-held :
    (hdr fmt : Text) (rest : List Effect)
    → held (parse_reads hdr fmt ++ rest) opened_file ≡ held rest opened_file
unfolding parse_reads held step
parse_reads-held hdr fmt rest =
    elim (Bool-cases (ltb (length hdr) 28 || not (tag_at 0 (codes "DSD ") hdr))) [
      | inl bad ↦ rw bad refl
      | inr good ↦ elim (Bool-cases (ltb (length fmt) 52 || not (tag_at 0 (codes "fmt ") fmt))) [
        | inl bad ↦ rw (good, bad) refl
        | inr fine ↦ rw (good, fine) refl
      ]
    ]

refused : (e : Event) → held (event e ∷ closed ∷ []) opened_file ≡ leaves []
unfolding held step
refused e = refl

-- The blocks of a DSF file: both are freed.
dsd-held :
    (a : Answers) (off n k : ℕ) (inner : List Event)
    → held
        (with_block a dsd_block n (
            seek off
              ∷ read (n % 2 ^ 32)
              ∷ with_block a dop_block k (events inner ++ freed dop_block ∷ [])
            ++ freed dsd_block ∷ [])
          ++ closed ∷ [])
        opened_file
      ≡ leaves []
unfolding with_block held step release
dsd-held a off n k inner = elim (Bool-cases (a.granted dsd_block)) [
  | inr no_block ↦ rw no_block refl
  | inl granted ↦ elim (Bool-cases (a.granted dop_block)) [
    | inr no_dop ↦ rw (granted, no_dop) refl
    | inl dop ↦
        let dop_left : List Effect = freed dop_block ∷ [] in
        let dsd_left : List Effect = freed dsd_block ∷ [] in
        let s : Held = record {
          file = true;
          opened_once = true;
          flac_decoder = false;
          blocks = dop_block ∷ dsd_block ∷ [];
        } in
        let flat : ((events inner ++ dop_left) ++ dsd_left) ++ closed ∷ []
            ≡ events inner ++ freed dop_block ∷ freed dsd_block ∷ closed ∷ [] =
          append_assoc (events inner ++ dop_left) dsd_left (closed ∷ [])
          ∙ append_assoc (events inner) dop_left (dsd_left ++ closed ∷ []) in
        rw (granted, dop)
          (ap (λ es. held es s) flat
            ∙ held-events inner (freed dop_block ∷ freed dsd_block ∷ closed ∷ []) s)
  ]
]

play_dsd-held : (a : Answers) (name : Text) → held (play_dsd a name) opened_file ≡ leaves []
unfolding play_dsd
play_dsd-held a name =
    let h : DsfHeader = parse_dsf a.dsf_hdr a.dsf_fmt a.dsf_data in
    parse_reads-held a.dsf_hdr a.dsf_fmt _ ∙ elim (Bool-cases h.valid) [
      | inr bad ↦
          rw bad (
            refused (publish (codes "/pps/storage/status") (codes "error") (codes "not valid DSF")))
      | inl good ↦ rw good (
          dsd-held a h.data_offset h.data_size (h.data_size * 2 * 4 % size_mod)
            (publish_dop name h (h.data_size / 2)))
    ]

play_format-held :
    (fmt : AudioFmt) (a : Answers) (name : Text)
    → held (play_format fmt a name) opened_file ≡ leaves (left_behind fmt a)
unfolding play_format
play_format-held flac a name = play_flac-held a name a.flac_file refl
play_format-held mp3 a name = play_whole-held a name a.mp3_file
play_format-held wav a name = play_whole-held a name a.wav_file
play_format-held aiff a name = play_whole-held a name a.wav_file
play_format-held dsf a name = play_dsd-held a name
play_format-held dff a name = play_dsd-held a name
play_format-held unknown a name = refused _
play_format-held wvpk a name = refused _
play_format-held ape a name = refused _
play_format-held ogg a name = refused _
play_format-held m4a a name = refused _

-- Whatever the card and the decoders answer: play opens the file at most once, uses it only while it is
-- open, closes it on every path, and frees only blocks that it holds. What it holds in the end is the block
-- of decoded samples, where FLAC, MP3, WAV or AIFF was decoded, and nothing on every other path.
pub play_lem :
    (a : Answers) (name : Text)
    → held (play a name) nothing
      ≡ some (record nothing {
        opened_once = a.found;
        blocks = if a.found then left_behind (detect_format a.magic) a else [];
      })
unfolding play held step
play_lem a name = elim (Bool-cases a.found) [
  | inl found ↦ simp found (play_format-held (detect_format a.magic) a name)
  | inr missing ↦ rw missing refl
]
