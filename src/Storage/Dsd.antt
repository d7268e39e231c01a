-- ===== src/Storage/Dsd.antt =====
-- DSD files of src/apps/storagemgr.cpp: the headers of a DSF file, and the packing of DSD into PCM frames.
use rp4_demo.Base.{
  ℕ, zero, suc, ◌+◌, ◌-◌, ◌*◌, ◌/◌, ◌%◌, ◌^◌, ◌<◌, ◌≡◌, refl, ap, ◌∙◌, arith, Bool, true, false,
  not, List, [], ◌∷◌, ltb, ◌==◌, if◌then◌else◌, Text, codes, get_or, length, All,
}
use rp4_demo.Storage.Formats.{tag_at}

-- `DsfHeader`
pub record DsfHeader : Type 0 where
  pub sample_rate : ℕ
  pub channels : ℕ
  pub data_offset : ℕ
  pub data_size : ℕ
  pub valid : Bool

abbrev pub no_header : DsfHeader
no_header = record { sample_rate = 0; channels = 0; data_offset = 0; data_size = 0; valid = false }

-- Four bytes from an offset, the lowest first.
pub le32 : ℕ → Text → ℕ
le32 at b =
    get_or b at 0
    + get_or b (at + 1) 0 * 2 ^ 8
    + get_or b (at + 2) 0 * 2 ^ 16
    + get_or b (at + 3) 0 * 2 ^ 24

-- `parse_dsf` on what its three reads have returned: at most 28, 52 and 12 bytes. The size wraps as
-- `std::uint64_t` does.
pub parse_dsf : Text → Text → Text → DsfHeader
unfolding le32
parse_dsf hdr fmt data_hdr =
    let read = record no_header { channels = le32 16 fmt; sample_rate = le32 20 fmt } in
    if ltb (length hdr) 28
    then no_header
    else if not (tag_at 0 (codes "DSD ") hdr)
    then no_header
    else if ltb (length fmt) 52
    then no_header
    else if not (tag_at 0 (codes "fmt ") fmt)
    then no_header
    else if ltb (length data_hdr) 12
    then read
    else if not (tag_at 0 (codes "data") data_hdr)
    then read
    else record read {
      data_size = (le32 4 data_hdr + 2 ^ 64 - 12) % 2 ^ 64;
      data_offset = 28 + 52 + 12;
      valid = true;
    }

-- The frames of `pack_dop`: the markers alternate, and each frame takes a byte for the left and one for the
-- right. An odd byte at the end is left out.
pub pack_dop : Bool → Text → List ℕ
pack_dop toggle [] = []
pack_dop toggle (l ∷ []) = []
pack_dop toggle (l ∷ r ∷ bytes) =
    let marker : ℕ = if toggle then 0xFA else 0x05 in
    (marker * 2 ^ 16 + l * 2 ^ 8) ∷ (marker * 2 ^ 16 + r * 2 ^ 8) ∷ pack_dop (not toggle) bytes

-- `dsd_bytes / 2`
abbrev pub frames : Text → ℕ
frames dsd = length dsd / 2

-- The DSD byte of a word.
abbrev pub dsd_byte : ℕ → ℕ
dsd_byte w = w / 2 ^ 8 % 2 ^ 8

abbrev pub marker_of : ℕ → ℕ
marker_of w = w / 2 ^ 16

-- What a word of the packing is, where `odd` frames went before.
Packed : ℕ → ℕ → ℕ → ℕ → Type 0
Packed odd j b w =
    (dsd_byte w ≡ b)
    × (w % 2 ^ 8 ≡ 0)
    × (marker_of w ≡ (if (j / 2 + odd) % 2 == 0 then 0x05 else 0xFA))

Packed-word :
    (marker odd j b : ℕ)
    → b < 2 ^ 8
    → (marker ≡ (if (j / 2 + odd) % 2 == 0 then 0x05 else 0xFA))
    → Packed odd j b (marker * 2 ^ 16 + b * 2 ^ 8)
unfolding Packed
Packed-word marker odd j b small m = (
  omega (arith, small),
  omega arith,
  (let e : (marker * 2 ^ 16 + b * 2 ^ 8) / 2 ^ 16 ≡ marker = omega (arith, small) in e ∙ m),
)

Packed-shift : (odd j b w : ℕ) → Packed (suc odd) j b w → Packed odd (suc (suc j)) b w
unfolding Packed
Packed-shift odd j b w (x, y, z) =
    let e : j / 2 + suc odd ≡ suc (suc j) / 2 + odd = omega arith in
    (x, y, z ∙ ap (λ t. if t % 2 == 0 then 0x05 else 0xFA) e)

pack_dop-Packed :
    (toggle : Bool) (odd : ℕ) (bytes : Text) (j : ℕ)
    → toggle ≡ not (odd % 2 == 0)
    → All (λ b. b < 2 ^ 8) bytes
    → j < 2 * frames bytes
    → Packed odd j (get_or bytes j 0) (get_or (pack_dop toggle bytes) j 0)
unfolding pack_dop
pack_dop-Packed toggle odd [] j t small h = absurd (omega arith)
pack_dop-Packed toggle odd (l ∷ []) j t small h = absurd (omega arith)
pack_dop-Packed toggle odd (l ∷ r ∷ bytes) zero t (sl, (sr, small)) h =
    Packed-word (if toggle then 0xFA else 0x05) odd 0 l sl (rw t (ground arith))
pack_dop-Packed toggle odd (l ∷ r ∷ bytes) (suc zero) t (sl, (sr, small)) h =
    Packed-word (if toggle then 0xFA else 0x05) odd 1 r sr (rw t (ground arith))
pack_dop-Packed toggle odd (l ∷ r ∷ bytes) (suc (suc j)) t (sl, (sr, small)) h =
    Packed-shift odd j (get_or bytes j 0) _
      (pack_dop-Packed (not toggle) (suc odd) bytes j (rw t (ground arith)) small (omega arith))

-- Word `j` of the packing of a sequence of bytes, for `j` below twice the number of frames: its middle byte
-- is byte `j`, its low byte is 0, and its marker is 0x05 in the first frame and changes from one to the next.
pub get_or-pack_dop :
    (bytes : Text) (j : ℕ)
    → All (λ b. b < 2 ^ 8) bytes
    → j < 2 * frames bytes
    → (dsd_byte (get_or (pack_dop false bytes) j 0) ≡ get_or bytes j 0)
      × (get_or (pack_dop false bytes) j 0 % 2 ^ 8 ≡ 0)
      × (marker_of (get_or (pack_dop false bytes) j 0)
          ≡ (if (j / 2 + 0) % 2 == 0 then 0x05 else 0xFA))
unfolding Packed
get_or-pack_dop bytes j small h = pack_dop-Packed false 0 bytes j refl small h

-- The packing has two words for each frame.
pub length-pack_dop :
    (toggle : Bool) (bytes : Text) → length (pack_dop toggle bytes) ≡ 2 * frames bytes
unfolding pack_dop
length-pack_dop toggle [] = omega arith
length-pack_dop toggle (l ∷ []) = omega arith
length-pack_dop toggle (l ∷ r ∷ bytes) = omega (arith, length-pack_dop (not toggle) bytes)
