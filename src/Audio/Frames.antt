-- ===== src/Audio/Frames.antt =====
-- The samples that src/apps/audiomgr.cpp reads from a capability.
use rp4_demo.Base.{
  ℕ, ◌+◌, ◌*◌, ◌/◌, ◌%◌, ◌^◌, ◌<◌, ◌≡◌, refl, ap, ap₂, ◌∙◌, List, [], ◌∷◌, ◌++◌, Option, some,
  length, Text, codes, arith, All, parse_digits, bit_or-disjoint,
}
use Prim.Native.Nat.{bit_or}
use rp4_demo.Audio.{Effect, sample, word16, frames, on_pcm, switch_rate, state}

-- Stereo samples as bytes: left before right, the low byte first.
abbrev pub encode : List (ℕ × ℕ) → List ℕ
encode [] = []
encode ((l, r) ∷ samples) = l % 256 ∷ l / 256 ∷ r % 256 ∷ r / 256 ∷ encode samples

abbrev pub samples_of : List (ℕ × ℕ) → List Effect
samples_of [] = []
samples_of ((l, r) ∷ samples) = sample l r ∷ samples_of samples

abbrev pub Is16Bit : ℕ × ℕ → Type 0
Is16Bit s = (s.0 < 2 ^ 16) × (s.1 < 2 ^ 16)

word16_lem : (s : ℕ) → s < 2 ^ 16 → word16 (s % 256) (s / 256) ≡ s
word16_lem s h =
    let sum : bit_or (s / 256 * 2 ^ 8) (s % 256) ≡ s / 256 * 2 ^ 8 + s % 256 =
      bit_or-disjoint 8 (s / 256) (s % 256) (omega arith) in
    omega (arith, sum, h)

frames_short : (rest : List ℕ) → length rest < 4 → frames rest ≡ []
unfolding frames
frames_short [] h = refl
frames_short (a ∷ []) h = refl
frames_short (a ∷ b ∷ []) h = refl
frames_short (a ∷ b ∷ c ∷ []) h = refl
frames_short (a ∷ b ∷ c ∷ d ∷ rest) h = absurd (omega arith)

frames-encode :
    (samples : List (ℕ × ℕ)) (rest : List ℕ)
    → All Is16Bit samples
    → frames rest ≡ []
    → frames (encode samples ++ rest) ≡ samples_of samples
unfolding frames
frames-encode [] rest h few = few
frames-encode ((l, r) ∷ samples) rest ((hl, hr), hs) few =
    ap₂ (λ a b. sample a b ∷ frames (encode samples ++ rest)) (word16_lem l hl) (word16_lem r hr)
    ∙ ap (λ t. sample l r ∷ t) (frames-encode samples rest hs few)

-- A capability that holds 16-bit stereo samples, and up to three bytes behind them, plays exactly these in
-- order, between the states "playing" and "idle", after the switch of the rate.
pub on_pcm-encode :
    (read_span : ℕ → Option (List ℕ)) (rate : Option Text) (value : Text) (samples : List (ℕ × ℕ))
    (rest : List ℕ)
    → All Is16Bit samples
    → length rest < 4
    → read_span (parse_digits 0 value) ≡ some (encode samples ++ rest)
    → on_pcm read_span rate value
      ≡ switch_rate rate
        ++ state (codes "playing") ∷ samples_of samples
        ++ state (codes "idle") ∷ []
unfolding on_pcm
on_pcm-encode read_span rate value samples rest fit short granted =
    rw (on_pcm, granted)
      (ap (λ t. switch_rate rate ++ state (codes "playing") ∷ t ++ state (codes "idle") ∷ [])
        (frames-encode samples rest fit (frames_short rest short)))
