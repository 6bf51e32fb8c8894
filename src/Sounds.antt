-- ===== src/Sounds.antt =====
-- web/src/hooks/useSoundEffects.ts: the mute flag, which localStorage keeps, and the audio context, which
-- the first sound makes. What a sound is made of is not modelled, only that it starts.
pub mod Muting
use ki_clash.Common.{String, Bool, true, false, not, Option, none, some, List, [], ◌∷◌, ◌++◌, ◌==◌}
use ki_clash.Common.{if◌then◌else◌}
use ki_clash.Api.Storage.{Storage, put}

pub data SoundName : Type 0 where
  countdown_beat reveal hit clash block dodge charge round_win round_lose : SoundName

abbrev pub mute_key : String
mute_key = "ki-clash-mute"

-- The state of an audio context.
pub data Context : Type 0 where
  running suspended : Context

-- The hook's state and ref, and the sounds that were started.
pub record State : Type 0 where
  pub muted : Bool
  pub ctx : Option Context
  pub started : List SoundName

abbrev pub initial : State
initial = record { muted = false; ctx = none; started = [] }

-- The timer of the effect on mount.
unfoldable pub restore : Storage → State → State
restore st s = record s { muted = elim (st mute_key) [ none ↦ false | some v ↦ v == "true" ] }

-- `getCtx`: a suspended context is resumed.
unfoldable pub get_ctx : State → State
get_ctx s = record s { ctx = some running }

-- A `play` that was made while the flag was `muted`.
unfoldable pub play : Bool → SoundName → State → State
unfolding get_ctx
play muted name s =
    if muted
    then s
    else (let ready = get_ctx s in record ready { started = ready.started ++ name ∷ [] })

abbrev pub flag_text : Bool → String
flag_text true = "true"
flag_text false = "false"

-- `toggleMute`: the flag and localStorage.
unfoldable pub toggle_mute : State × Storage → State × Storage
toggle_mute (s, st) =
    let next = not s.muted in (record s { muted = next }, put mute_key (flag_text next) st)
