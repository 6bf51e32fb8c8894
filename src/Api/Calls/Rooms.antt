-- ===== src/Api/Calls/Rooms.antt =====
-- The calls about rooms: the case of a code, and the answer of `leaveRoom`.
use ki_clash.Common.{◌≡◌, refl, String, Bool, true, none, arith}
use ki_clash.Common.Text.{◌<>◌}
use ki_clash.Common.Upper.{to_upper, to_upper_idem}
use ki_clash.Api.Types.{nothing}
use ki_clash.Api.Storage.{World, thrown, get_token}
use ki_clash.Api.Client.{Response, answer, Network, is_ok, is_stale, read_response}
use ki_clash.Api.Client.Session.{asked, api_fetch_answered}
use ki_clash.Api.Calls.{
  with_method, get_room, join_room, set_room_character, set_room_ready, start_room_game, leave_room,
}

module _ (net : Network) where
  -- A room is addressed by its code in upper case: every call gives the same result, and sends the
  -- same requests, for a code and for its upper-case form.
  pub room_code_case :
      (code character_id : String) (ready : Bool)
      → (get_room net (to_upper code) ≡ get_room net code)
        × (join_room net (to_upper code) ≡ join_room net code)
        × (set_room_character net (to_upper code) character_id
            ≡ set_room_character net code character_id)
        × (set_room_ready net (to_upper code) ready ≡ set_room_ready net code ready)
        × (start_room_game net (to_upper code) ≡ start_room_game net code)
        × (leave_room net (to_upper code) ≡ leave_room net code)
  unfolding get_room join_room set_room_character set_room_ready start_room_game leave_room
  room_code_case code character_id ready = (
    rw (to_upper_idem code),
    rw (to_upper_idem code),
    rw (to_upper_idem code),
    rw (to_upper_idem code),
    rw (to_upper_idem code),
    rw (to_upper_idem code),
  )

  -- leaveRoom rejects when the server reports success with an empty body, whatever the success.
  pub leave_room_rejects :
      (code : String) (w : World) (res : Response nothing)
      → net.reply nothing
          (asked net
            (get_token w)
            ("/api/v1/rooms/" <> to_upper code <> "/leave")
            (with_method "POST")
            w).sent
        ≡ answer res
      → is_ok res.status ≡ true
      → res.json ≡ none
      → (leave_room net code w).0 ≡ thrown "Unexpected end of JSON input"
  unfolding leave_room read_response is_stale
  leave_room_rejects code w res h good empty =
      rw (api_fetch_answered net nothing _ _ w res h (ground arith)) (rw (good, empty) refl)
