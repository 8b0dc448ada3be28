-- ===== src/VideoCall/Start/Door.antt =====
-- A door opened during a call, when the call's counter has run out of its 32 bits.
use comelit_man.Protocol.Call.{encode_door_open_during_video}
use comelit_man.Bytes.{pack_le16, pack_le32}
use comelit_man.Prelude.{
  Text, IsAscii, ℕ, ◌+◌, ◌^◌, ◌≤◌, ◌≡◌, refl, true, some, le→ltb, struct_error, err,
}
use comelit_man.Bytes.Laws.{encode_ascii-ok}
use comelit_man.VideoCall.Start.{open_door_on_ctpp}
use comelit_man.VideoCall.Talk.{say}
use comelit_man.VideoCall.Codec.{Peers}
use comelit_man.VideoCall.State.{Session, ctr_incr_byte4}
use comelit_man.Client.{Channel, get_channel}
use comelit_man.VideoCall.Names.{ctpp_name}

encode_refused :
    (our entrance : Text) (counter relay : ℕ)
    → IsAscii our
    → IsAscii entrance
    → 2 ^ 32 ≤ counter
    → encode_door_open_during_video our entrance counter relay ≡ err struct_error
unfolding encode_door_open_during_video pack_le32 pack_le16
encode_refused our entrance counter relay h k big =
    rw (encode_ascii-ok our h, encode_ascii-ok entrance k) (rw (le→ltb _ _ big) refl)

-- Opening the door in an active call with its channel open and ASCII addresses, whose counter has
-- come to 2 ^ 32 - 0x10000 or more, raises `struct.error`: nothing is sent, and the counter stays
-- raised, so that the next attempt raises too.
pub open_door_on_ctpp-overflow :
    (p : Peers) (relay : ℕ) (s : Session) (ctpp : Channel)
    → s.active ≡ true
    → get_channel s.client ctpp_name ≡ some ctpp
    → IsAscii p.ours
    → IsAscii p.theirs
    → 2 ^ 32 ≤ s.call_counter + ctr_incr_byte4
    → open_door_on_ctpp p relay s
      ≡ (record s { call_counter = s.call_counter + ctr_incr_byte4 }, err struct_error)
unfolding open_door_on_ctpp say
open_door_on_ctpp-overflow p relay s ctpp active found h k big =
    rw (found, active, encode_refused p.ours p.theirs _ relay h k big) refl
