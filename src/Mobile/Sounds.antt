-- ===== src/Mobile/Sounds.antt =====
-- mobile/src/hooks/useSoundEffects.ts: the file of a sound, byte by byte, the mix of two sounds, and the
-- mute flag. A tone's samples come from floating-point sines and are not modelled; base64 is a parameter.
pub mod Bytes
pub mod Wave
pub mod Mixing
use ki_clash.Common.{
  ℕ, zero, suc, ◌+◌, ◌-◌, ◌*◌, ◌/◌, ◌%◌, String, Bool, true, false, not, ◌==◌, Option, none, some,
  List, [], ◌∷◌, ◌++◌, length, ltb, if◌then◌else◌, get_elem?, get_or_else,
}
use ki_clash.Common.Integers.{ℤ, pos, negsuc, ◌+ℤ◌, max_z, min_z}
use ki_clash.Common.Text.{◌<>◌}
use ki_clash.Sounds.{SoundName, flag_text}
use ki_clash.Mobile.Sounds.Bytes.{Buffer, zeros, set_bytes, little_16, little_32, char_codes, word}

abbrev pub sample_rate : ℕ
sample_rate = 22050

-- `writeString`.
abbrev pub write_string : ℕ → String → Buffer → Buffer
write_string offset s = set_bytes offset (char_codes s)

-- `view.setUint32` and `view.setUint16`, with the lowest byte first.
abbrev pub set_uint_32 : ℕ → ℕ → Buffer → Buffer
set_uint_32 offset n = set_bytes offset (little_32 n)

abbrev pub set_uint_16 : ℕ → ℕ → Buffer → Buffer
set_uint_16 offset n = set_bytes offset (little_16 n)

-- `view.setInt16` of a sample.
abbrev pub set_int_16 : ℕ → ℤ → Buffer → Buffer
set_int_16 offset v = set_bytes offset (little_16 (word v))

-- The loop that writes the samples, from the index `i` on.
unfoldable pub write_samples : ℕ → List ℤ → Buffer → Buffer
write_samples i [] b = b
write_samples i (v ∷ vs) b = write_samples (i + 1) vs (set_int_16 (44 + i * 2) v b)

-- The bytes of `pcmToWavDataUri`.
unfoldable pub pcm_to_wav : List ℤ → Buffer
unfolding write_samples
pcm_to_wav samples =
    let byte_rate = sample_rate * 2 in
    let data_size = length samples * 2 in
    write_samples 0 samples (
      set_uint_32 40 data_size (
        write_string 36 "data" (
          set_uint_16 34 16 (
            set_uint_16 32 2 (
              set_uint_32 28 byte_rate (
                set_uint_32 24 sample_rate (
                  set_uint_16 22 1 (
                    set_uint_16 20 1 (
                      set_uint_32 16 16 (
                        write_string 12 "fmt " (
                          write_string 8 "WAVE" (
                            set_uint_32 4 (36 + data_size)
                              (write_string 0 "RIFF" (zeros (44 + data_size)))))))))))))))

-- `pcmToWavDataUri`; `btoa` is the browser's, on the bytes as the characters of a text.
unfoldable pub pcm_to_wav_data_uri : (Buffer → String) → List ℤ → String
unfolding pcm_to_wav
pcm_to_wav_data_uri btoa samples = "data:audio/wav;base64," <> btoa (pcm_to_wav samples)

abbrev largest : ℤ
largest = pos 32767

abbrev smallest : ℤ
smallest = negsuc 32766

-- A sample of a mix, within the largest amplitude.
unfoldable pub clamp : ℤ → ℤ
clamp v = max_z smallest (min_z largest v)

-- `mixSamples`; a sound that has ended adds 0.
unfoldable pub mix_samples : List ℤ → List ℤ → List ℤ
unfolding clamp ◌+ℤ◌
mix_samples [] [] = []
mix_samples (a ∷ more) [] = clamp (a +ℤ pos 0) ∷ mix_samples more []
mix_samples [] (b ∷ bs) = clamp (pos 0 +ℤ b) ∷ mix_samples [] bs
mix_samples (a ∷ more) (b ∷ bs) = clamp (a +ℤ b) ∷ mix_samples more bs

-- The hook's flag, and the sounds that were started.
pub record State : Type 0 where
  pub muted : Bool
  pub started : List SoundName

-- The effect that reads what is stored, once it is read.
unfoldable pub load : Option String → State → State
load none s = s
load (some v) s = if v == "true" then record s { muted = true } else s

-- A `play` that was made while the flag was `muted`, where the sound can be created.
unfoldable pub play : Bool → SoundName → State → State
play muted name s = if muted then s else record s { started = s.started ++ name ∷ [] }

-- `toggleMute`, with the text that it stores.
unfoldable pub toggle_mute : State → State × String
toggle_mute s = let next = not s.muted in (record s { muted = next }, flag_text next)
