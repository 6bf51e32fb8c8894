-- ===== src/Characters.antt =====
-- web/src/lib/characters.ts: the roster, the look-up by identifier and the choice of an opponent.
pub mod Roster
use ki_clash.Common.{
  ℕ, ◌*◌, ◌/◌, String, not, Option, none, some, List, [], ◌∷◌, ◌==◌, length, get_elem?,
  if◌then◌else◌,
}

pub record Character : Type 0 where
  pub id : String
  pub name : String
  pub korean_name : String
  pub emoji : String
  pub color : String
  pub bio : String
  pub trash_talk : List String

abbrev pub haneul : Character
haneul = record {
  id = "haneul";
  name = "Kael";
  korean_name = "하늘 · Sky";
  emoji = "🌀";
  color = "#60A5FA";
  bio = "Calm sky-monk. Strikes with the wind itself.";
  trash_talk =
      "The wind whispers your next move to me..." ∷ "Stillness defeats all aggression."
      ∷ "You fight the sky itself. How do you expect to win?"
      ∷ "Every clash brings you closer to enlightenment... and defeat." ∷ [];
}

abbrev pub bora : Character
bora = record {
  id = "bora";
  name = "Selene";
  korean_name = "보라 · Moon Oracle";
  emoji = "🔮";
  color = "#C084FC";
  bio = "Lavender oracle. The moon reveals her next strike.";
  trash_talk =
      "The cards already told me your next move..." ∷ "I saw this outcome three turns ago."
      ∷ "How predictable. Try surprising me for once." ∷ "The spirits laugh at your strategy."
      ∷ "Fate has already chosen the winner. Spoiler: it's me." ∷ [];
}

abbrev taeyang : Character
taeyang = record {
  id = "taeyang";
  name = "Blaze";
  korean_name = "태양 · Sun";
  emoji = "☀\u{fe0f}";
  color = "#FACC15";
  bio = "Brash sun-born. Burns hotter than common sense.";
  trash_talk =
      "HAHA! Is that all you've got?!" ∷ "My ki burns hotter than a thousand suns!"
      ∷ "Stop blocking and FIGHT me!" ∷ "You're about to get scorched!"
      ∷ "I don't need strategy — I have POWER!" ∷ [];
}

abbrev danbi : Character
danbi = record {
  id = "danbi";
  name = "Yuki";
  korean_name = "단비 · Sweet Rain";
  emoji = "🌊";
  color = "#22D3EE";
  bio = "Silver captain. Calm rain, drowning tsunami.";
  trash_talk =
      "Flow like water... strike like a tsunami." ∷ "Your aggression creates openings. Thank you."
      ∷ "The river doesn't fight the rock. It wears it down." ∷ "Patience is my greatest weapon."
      ∷ [];
}

abbrev seokjin : Character
seokjin = record {
  id = "seokjin";
  name = "Atlas";
  korean_name = "석진 · Stone Master";
  emoji = "🪨";
  color = "#FB923C";
  bio = "Mountain-old master. Immovable, until you wake him.";
  trash_talk =
      "I've been blocking attacks since before you were born." ∷ "Hit me. Go on. I dare you."
      ∷ "Mountains don't flinch." ∷ "You'll tire before I do, young one." ∷ "Hmph. Predictable."
      ∷ [];
}

abbrev yuri : Character
yuri = record {
  id = "yuri";
  name = "Rosa";
  korean_name = "유리 · Crystal";
  emoji = "💎";
  color = "#F472B6";
  bio = "Crystal-edged queen. Cold beauty, sharper words.";
  trash_talk =
      "Oh, that was your best move? How... quaint."
      ∷ "I could win this with my eyes closed, darling."
      ∷ "You're making this too easy. It's almost boring."
      ∷ "Diamonds cut through everything. Including your pride."
      ∷ "Try harder. Or don't. The result is the same." ∷ [];
}

abbrev seorin : Character
seorin = record {
  id = "seorin";
  name = "Frost";
  korean_name = "서린 · Frost";
  emoji = "❄\u{fe0f}";
  color = "#38BDF8";
  bio = "Frost-calm duelist. Still as a frozen lake — until she strikes.";
  trash_talk =
      "Cold reads win. Yours are lukewarm." ∷ "The ice already knows where you'll step."
      ∷ "Struggle. It's warmer that way." ∷ "Freeze. ...Too late." ∷ [];
}

abbrev cheon : Character
cheon = record {
  id = "cheon";
  name = "Volt";
  korean_name = "천둥 · Thunder";
  emoji = "⚡";
  color = "#818CF8";
  bio = "Storm-born brawler. Faster than the thunder that chases him.";
  trash_talk =
      "Blink and it's over. So... blink." ∷ "You're slow. Painfully slow."
      ∷ "The strike lands before the sound. You lose twice." ∷ "Zap. That was you, by the way."
      ∷ "Too fast for you? Skill issue." ∷ [];
}

abbrev yeonhwa : Character
yeonhwa = record {
  id = "yeonhwa";
  name = "Shade";
  korean_name = "그림자 · Shadow";
  emoji = "🌑";
  color = "#7C3AED";
  bio = "Shadow-step duelist. You never see the strike that lands.";
  trash_talk =
      "You're fighting a shadow. Good luck." ∷ "I was behind you three moves ago."
      ∷ "The dark doesn't miss." ∷ "Look away. It won't help."
      ∷ "Silence is the last thing you'll read." ∷ [];
}

unfoldable pub characters : List Character
characters = haneul ∷ bora ∷ taeyang ∷ danbi ∷ seokjin ∷ yuri ∷ seorin ∷ cheon ∷ yeonhwa ∷ []

find : String → List Character → Option Character
find id [] = none
find id (c ∷ cs) = if c.id == id then some c else find id cs

unfoldable pub get_character : String → Option Character
unfolding find characters
get_character id = find id characters

abbrev pub others : String → List Character → List Character
others id [] = []
others id (c ∷ cs) = if not (c.id == id) then c ∷ others id cs else others id cs

-- `Math.random()` as the fraction of two numbers, the first below the second.
pub record Random : Type 0 where
  pub num : ℕ
  pub den : ℕ

-- `Math.floor(r * n)`.
abbrev pub floor_times : Random → ℕ → ℕ
floor_times r n = r.num * n / r.den

-- `getRandomCharacterExcluding`; the index past the end reads undefined.
unfoldable pub get_random_character_excluding : Random → String → Option Character
get_random_character_excluding r exclude_id =
    let candidates = others exclude_id characters in
    get_elem? candidates (floor_times r (length candidates))
