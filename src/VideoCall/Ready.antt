-- ===== src/VideoCall/Ready.antt =====
-- The end of `start` and of `start_inbound`: the monitor runs while the first video is awaited.
use comelit_man.VideoCall.Talk.{Talk, ◌>>=◌, ◌>>◌, pure, get, change, emit}
use comelit_man.Prelude.{ℕ, ◌+◌, ◌%◌, ◌^◌, true, if◌then◌else◌}
use comelit_man.Client.{Channel, get_channel}
use comelit_man.VideoCall.State.{our_addr, entrance_addr, ts, answer_scheduled}
use comelit_man.VideoCall.Names.{ctpp_name}
use comelit_man.VideoCall.Codec.{Peers}
use comelit_man.VideoCall.Start.{attach_ctpp, Media, place_call, or_clean}
use comelit_man.VideoCall.Inbound.{accept_media, on_ctpp, inbound_peers}
use comelit_man.VideoCall.Monitor.{monitor_loop}
use comelit_man.Vip.Timestamp.{transform_device_ts}

-- The session becomes active, and the monitor makes its reads until the first video is there or
-- does not come in time; what it raises is its own, and it may end the session.
unfoldable pub await_video : Channel → Peers → Media → Talk (Unit {0})
await_video ctpp p m = do
  change (λ t. record t { call_counter = m.counter; active = true })
  s ← get
  monitor_loop s.device.wait_reads ctpp p m.rtpc1_id m.media_id m.counter

-- Once the first video is there, the answer sequence is left to a task of its own.
unfoldable pub start : Talk (Unit {0})
start = or_clean (do
  s ← get
  ctpp ← attach_ctpp (get_channel s.client ctpp_name)
  let p : Peers = record { ours = our_addr s; theirs = entrance_addr s }
  media ← place_call ctpp p ((ts s + 1) % 2 ^ 32)
  await_video ctpp p media
  t ← get
  if t.device.video_ready then emit answer_scheduled else pure tt)

unfoldable pub start_inbound : ℕ → ℕ → Talk (Unit {0})
start_inbound ring_ts renewal_ack_ts = or_clean (do
  s ← get
  on_ctpp (get_channel s.client ctpp_name) (λ ctpp. do
    media ← accept_media ctpp (inbound_peers s) (transform_device_ts ring_ts) renewal_ack_ts
    await_video ctpp (inbound_peers s) media))
