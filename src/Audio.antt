-- ===== src/Audio.antt =====
-- src/apps/audiomgr.cpp: what each handler publishes, and what it asks of the DAC and of I2S.
pub mod Frames
mod Tests
use rp4_demo.Base.{
  ℕ, zero, suc, ◌+◌, ◌-◌, ◌*◌, ◌/◌, ◌%◌, ◌^◌, Bool, true, false, not, ◌&&◌, Option, none, some,
  List, [], ◌∷◌, ◌++◌, ltb, ◌==◌, if◌then◌else◌, Text, codes, parse_digits, to_string,
}
use Prim.Native.Nat.{bit_or}
use rp4_demo.Pps.{Event, publish}

-- An effect of a handler, in the order of the code. A sample is two 16-bit words, left and right, and
-- stands for the loop that offers it to I2S until it is taken.
pub data Effect : Type 0 where
  event : Event → Effect
  dac_mute : Bool → Effect
  dac_set_volume : ℕ → Effect
  i2s_set_sample_rate : ℕ → Effect
  sample : ℕ → ℕ → Effect

-- `rp4::config::sample_rate`
abbrev pub configured_rate : ℕ
configured_rate = 48000

abbrev pub status : Text → Text → Effect
status key value = event (publish (codes "/pps/audio/status") key value)

abbrev pub state : Text → Effect
state value = status (codes "state") value

-- The sample of `play_tone` at a phase: `x` and `x3` by their absolute values, since the divisions round to
-- zero, and the sample by its 16 bits.
pub wave : ℕ → ℕ
wave phase =
    let y = phase * 32768 / 48000 in
    let below = ltb y 16384 in
    let x = if below then 16384 - y else y - 16384 in
    let x3 = x * x / 16384 * x / 16384 in
    if below then (2 ^ 16 - (x - x3 / 6)) % 2 ^ 16 else x - x3 / 6

-- The loop of `play_tone` from `n` on, with so many rounds left.
pub tone : ℕ → ℕ → List Effect
unfolding wave
tone zero n = []
tone (suc rounds) n = let s = wave (n * 440 * 2 % 48000) in sample s s ∷ tone rounds (n + 1)

pub play_tone : List Effect
unfolding tone
play_tone = tone (48000 * 5) 0

pub on_mute : List Effect
on_mute = dac_mute true ∷ state (codes "muted") ∷ []

pub on_unmute : List Effect
on_unmute = dac_mute false ∷ state (codes "idle") ∷ []

pub on_volume : Text → List Effect
on_volume value =
    let v = parse_digits 0 value in
    dac_set_volume (v % 2 ^ 8) ∷ status (codes "volume") (to_string v) ∷ []

pub on_tone : List Effect
on_tone = state (codes "playing") ∷ play_tone ++ state (codes "idle") ∷ []

-- `pcm[i] | (pcm[i + 1] << 8)` as 16 bits.
abbrev pub word16 : ℕ → ℕ → ℕ
word16 lo hi = bit_or (hi * 2 ^ 8) lo % 2 ^ 16

-- The loop over the frames; up to three bytes at the end are left.
pub frames : List ℕ → List Effect
frames (a ∷ b ∷ c ∷ d ∷ pcm) = sample (word16 a b) (word16 c d) ∷ frames pcm
frames _ = []

-- The switch of the rate, where the status has one.
abbrev pub switch_rate : Option Text → List Effect
switch_rate none = []
switch_rate (some text) =
    let sr = parse_digits 0 text in
    if ltb 0 sr && not (sr == configured_rate) then i2s_set_sample_rate sr ∷ [] else []

-- The kernel's answers are parameters: the bytes that a capability lets read, and the status's rate.
pub on_pcm : (ℕ → Option (List ℕ)) → Option Text → Text → List Effect
unfolding frames
on_pcm read_span rate value = elim (read_span (parse_digits 0 value)) [
  | none ↦ []
  | some pcm ↦ switch_rate rate ++ state (codes "playing") ∷ frames pcm ++ state (codes "idle") ∷ []
]

-- What `audiomgr_main` publishes before it subscribes.
pub at_start : List Effect
at_start =
    state (codes "idle")
    ∷ status (codes "format") (
        to_string (configured_rate / 1000)
        ++ codes "kHz/"
        ++ to_string 16
        ++ codes "-bit/"
        ++ to_string 2
        ++ codes "ch")
    ∷ []
