-- ===== src/Storage/Tags.antt =====
-- Tags and metadata of src/apps/storagemgr.cpp.
use rp4_demo.Base.{
  ℕ, zero, suc, ◌+◌, ◌-◌, ◌*◌, ◌%◌, ◌^◌, ◌<◌, ◌≡◌, refl, arith, Bool, true, false, ◌&&◌, Option,
  none, some, List, [], ◌∷◌, ◌++◌, ltb, leb, ◌==◌, if◌then◌else◌, Text, codes, take, drop, get_or,
  length, min, to_string, length-append, length-take, Bool-cases, inl, inr,
}
use rp4_demo.Pps.{Event, publish}
use rp4_demo.MemFs.{c_string}

-- `TrackMeta`; `cover` is the size of the cover's data, where there are any.
pub record TrackMeta : Type 0 where
  pub artist : Text
  pub album : Text
  pub title : Text
  pub track_number : ℕ
  pub cover : Option ℕ

-- `if (a >= 'a' && a <= 'z') a -= 32;`
abbrev pub upper : ℕ → ℕ
upper a = if leb b'a' a && leb a b'z' then a - 32 else a

pub same_letters : Text → Text → Bool
same_letters [] comment = true
same_letters (k ∷ ks) [] = false
same_letters (k ∷ ks) (c ∷ cs) = upper c == upper k && same_letters ks cs

-- The copy into a character array: as much as leaves room for the NUL.
pub copy_into : Text → Text → Text
copy_into out value =
    let vlen = min (length value) (length out - 1) in take vlen value ++ 0 ∷ drop (vlen + 1) out

-- `copy_tag_value`; `len` is the length of the comment, whose bytes are given.
pub copy_tag_value : Text → Text → Text → Text
unfolding same_letters copy_into
copy_tag_value comment key out =
    if leb (length comment) (length key + 1)
    then out
    else if same_letters key comment && get_or comment (length key) 0 == b'='
    then copy_into out (drop (length key + 1) comment)
    else out

-- What `publish_meta` publishes for a string field.
abbrev pub publish_text : Text → Text → List Event
publish_text key a = elim (c_string a) [
  | [] ↦ []
  | c ∷ cs ↦ publish (codes "/pps/audio/status") key (c ∷ cs) ∷ []
]

pub publish_meta : TrackMeta → List Event
publish_meta m =
    publish_text (codes "artist") m.artist
    ++ (publish_text (codes "album") m.album
        ++ (publish_text (codes "title") m.title
            ++ ((if ltb 0 m.track_number
                  then publish (codes "/pps/audio/status") (codes "track")
                      (to_string m.track_number)
                    ∷ []
                  else [])
                ++ elim m.cover [
                  | none ↦ []
                  | some size ↦
                      if ltb 0 size
                      then publish (codes "/pps/cmd/store") (codes "value")
                          (codes "cover.jpg 0 " ++ to_string size)
                        ∷ publish (codes "/pps/audio/status") (codes "cover") (codes "true")
                        ∷ []
                      else []
                ])))

-- `publish_pcm` with a buffer that is not null.
pub publish_pcm : Text → ℕ → ℕ → ℕ → List Event
publish_pcm title samples sr ch =
    publish (codes "/pps/audio/status") (codes "title") title
    ∷ publish (codes "/pps/audio/status") (codes "sample_rate") (to_string sr)
    ∷ publish (codes "/pps/audio/status") (codes "channels") (to_string ch)
    ∷ publish (codes "/pps/cmd/store") (codes "value")
        (title ++ (codes " 0 " ++ to_string (samples * 2 % 2 ^ 64)))
    ∷ publish (codes "/pps/storage/status") (codes "state") (codes "decoded")
    ∷ []

length-drop : (n : ℕ) (xs : Text) → length (drop n xs) ≡ length xs - n
length-drop zero xs = omega arith
length-drop (suc n) [] = omega arith
length-drop (suc n) (x ∷ xs) = omega (arith, length-drop n xs)

length-copy_into : (out value : Text) → 0 < length out → length (copy_into out value) ≡ length out
unfolding copy_into
length-copy_into out value h =
    let vlen = min (length value) (length out - 1) in
    omega (
      arith,
      length-append (take vlen value) (0 ∷ drop (vlen + 1) out),
      length-take vlen value,
      length-drop (vlen + 1) out,
    )

-- Whatever the comment and the key are, `copy_tag_value` writes inside the array, which is not empty.
pub length-copy_tag_value :
    (comment key out : Text) → 0 < length out → length (copy_tag_value comment key out) ≡ length out
unfolding copy_tag_value
length-copy_tag_value comment key out h =
    elim (Bool-cases (leb (length comment) (length key + 1))) [
      | inl short ↦ rw short refl
      | inr long ↦
          elim (Bool-cases (same_letters key comment && get_or comment (length key) 0 == b'=')) [
            | inl found ↦ rw (long, found) (length-copy_into out (drop (length key + 1) comment) h)
            | inr other ↦ rw (long, other) refl
          ]
    ]
