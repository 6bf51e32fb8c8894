-- ===== src/Room/Agreement.antt =====
-- What the two players of a room are handed by web/src/components/room/RoomScreen.tsx.
use ki_clash.Common.{
  Option, refl, ◌≡◌, ◌≢◌, arith, String, true, false, some, ◌==◌, eq_iff, eq_refl, Bool-cases, inl,
  inr, ◌<◌,
}
use ki_clash.Api.Types.{RoomPlayerData, RoomData}
use ki_clash.Game.{rejected, resolved}
use ki_clash.Room.{
  handoff, is_live, is_both_ready, State, polled, start_settled, hand_off_or_start, show_room,
}

-- The two players of a room, with different ids and both with a character, are handed the same game
-- by the lobby, each with the other's name, and with the two characters exchanged.
pub handoff_mirrors :
    (r : RoomData) (guest : RoomPlayerData) (ours theirs : String)
    → r.guest ≡ some guest
    → guest.id ≢ r.host.id
    → r.host.character_id ≡ some ours
    → guest.character_id ≡ some theirs
    → ((handoff (some r.host.id) r).game_id ≡ (handoff (some guest.id) r).game_id)
      × ((handoff (some r.host.id) r).our_character_id
          ≡ (handoff (some guest.id) r).opponent_character_id)
      × ((handoff (some r.host.id) r).opponent_character_id
          ≡ (handoff (some guest.id) r).our_character_id)
      × ((handoff (some r.host.id) r).opponent_name ≡ guest.name)
      × ((handoff (some guest.id) r).opponent_name ≡ r.host.name)
handoff_mirrors r guest ours theirs e d h k = elim (Bool-cases (guest.id == r.host.id)) [
  | inl same ↦ elim (d ((eq_iff guest.id r.host.id).0 same)) [ ]
  | inr other ↦ rw (eq_refl r.host.id, other, e, h, k) (refl, refl, refl, refl, refl)
]

-- When a request to start the game fails, the next poll that finds both players ready, and no live
-- game, makes it again.
pub failed_start_retried :
    (r : RoomData) (e : Option String) (s : State)
    → is_live r ≡ false
    → is_both_ready r ≡ true
    → 0 < s.starts_pending
    → (polled false (resolved r) (start_settled (rejected e) s)).starts_pending ≡ s.starts_pending
unfolding polled show_room start_settled hand_off_or_start
failed_start_retried r e s h k p = rw (h, k) (omega arith)
