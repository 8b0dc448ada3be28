-- ===== src/VideoCall/Monitor/Short.antt =====
-- What a message that is too short for its timestamp does to the monitor.
use comelit_man.VideoCall.Talk.{listen}
use comelit_man.VideoCall.Monitor.{ack_transformed, react, monitor_heard, monitor_loop}
use comelit_man.Bytes.{Bytes, le16_at, unpack_le32}
use comelit_man.Prelude.{
  ℕ, suc, ◌≤◌, ◌<◌, ◌≡◌, refl, true, Option, some, List, ◌∷◌, le→ltb, lt→leb, length, ok,
}
use comelit_man.Client.{Channel}
use comelit_man.VideoCall.Codec.{Peers}
use comelit_man.VideoCall.State.{Session}

-- In an active session a next message of two to five bytes with the prefix 0x1860 ends the
-- monitor's loop: nothing is sent, every later message stays unread, and the session is still
-- active.
pub monitor_loop-short :
    (reads : ℕ) (ctpp : Channel) (p : Peers) (rtpc1_id media_id counter : ℕ) (s : Session)
    (d : Bytes) (rest : List (Option Bytes))
    → s.active ≡ true
    → s.device.reads ≡ some d ∷ rest
    → 2 ≤ length d
    → length d < 6
    → le16_at d 0 ≡ 0x1860
    → monitor_loop (suc reads) ctpp p rtpc1_id media_id counter s
      ≡ (record s { device = record s.device { reads = rest } }, ok tt)
unfolding monitor_loop listen monitor_heard react ack_transformed unpack_le32
monitor_loop-short reads ctpp p rtpc1_id media_id counter s d rest active script least short
      prefix =
    rw (active, script, prefix, le→ltb (length d) 2 least, lt→leb 6 (length d) short) refl
