-- ===== src/Storage/Formats.antt =====
-- The file formats of src/apps/storagemgr.cpp, by their first bytes.
use rp4_demo.Base.{
  ℕ, ◌/◌, Bool, ◌&&◌, leb, ◌==◌, if◌then◌else◌, Text, text_eq, codes, take, drop, get_or, length,
}

-- `AudioFmt`
pub data AudioFmt : Type 0 where
  unknown dsf dff flac mp3 wav aiff wvpk ape ogg m4a : AudioFmt

-- The bytes of a tag stand at an offset of the bytes read.
pub tag_at : ℕ → Text → Text → Bool
tag_at off tag m = text_eq (take (length tag) (drop off m)) tag

-- `magic[0]==0xFF && (magic[1] & 0xE0) == 0xE0`: the top three bits of the second byte are set.
abbrev pub mp3_sync : Text → Bool
mp3_sync m = leb 2 (length m) && (get_or m 0 0 == 0xFF && get_or m 1 0 / 32 == 7)

-- The bytes are the first 16 of the file, or all of a shorter one. A test that reads up to byte `n` also
-- asks for `n` bytes, as `tag_at` does by comparing all of the tag.
pub detect_format : Text → AudioFmt
unfolding tag_at
detect_format m =
    if tag_at 0 (codes "DSD ") m
    then dsf
    else if tag_at 0 (codes "FRM8") m && tag_at 12 (codes "DSD ") m
    then dff
    else if tag_at 0 (codes "fLaC") m
    then flac
    else if tag_at 0 (codes "RIFF") m
    then wav
    else if tag_at 0 (codes "ID3") m
    then mp3
    else if mp3_sync m
    then mp3
    else if tag_at 0 (codes "FORM") m && tag_at 8 (codes "AIFF") m
    then aiff
    else if tag_at 0 (codes "wvpk") m
    then wvpk
    else if tag_at 0 (codes "MAC ") m
    then ape
    else if tag_at 0 (codes "OggS") m
    then ogg
    else if tag_at 4 (codes "ftyp") m
    then m4a
    else unknown
