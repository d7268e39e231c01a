-- ===== src/Audio/Tests.antt =====
-- The theorem on src/apps/audiomgr.cpp at concrete samples.
use rp4_demo.Base.{ℕ, ◌+◌, ◌≡◌, refl, [], ◌∷◌, ◌++◌, some, List, codes, arith, ◌*◌, ◌%◌, All}
use rp4_demo.Audio.{on_pcm, switch_rate, state, wave}
use rp4_demo.Audio.Frames.{encode, samples_of, on_pcm-encode, Is16Bit}

-- 600 samples are 11 periods: the tone has 880 Hz.
repeats : wave ((7 + 600) * 440 * 2 % 48000) ≡ wave (7 * 440 * 2 % 48000)
repeats = refl

abbrev samples : List (ℕ × ℕ)
samples = (1, 65535) ∷ (300, 2) ∷ []

fit : All Is16Bit samples
fit = ((omega arith, omega arith), ((omega arith, omega arith), tt))

on_pcm-encode_example :
    on_pcm (λ id. some (encode samples ++ 9 ∷ [])) (some (codes "44100")) (codes "3")
    ≡ switch_rate (some (codes "44100"))
      ++ state (codes "playing") ∷ samples_of samples
      ++ state (codes "idle") ∷ []
on_pcm-encode_example =
    on_pcm-encode (λ id. some (encode samples ++ 9 ∷ [])) (some (codes "44100")) (codes "3") samples
      (9 ∷ []) fit (omega arith) refl
