-- ===== src/VideoCall/Inbound.antt =====
-- `start_inbound`: the media of a call that the device makes, set up without answering it.
use comelit_man.VideoCall.Talk.{
  Talk, ◌>>=◌, ◌>>◌, pure, raise, get, change, listen, say, request_open, await_open, lift_client,
}
use comelit_man.Prelude.{
  ℕ, zero, suc, ◌+◌, ◌%◌, ◌^◌, Bool, true, false, not, ◌&&◌, Option, none, some, ltb, leb, ◌==◌,
  if◌then◌else◌, length, video_call_error,
}
use comelit_man.Bytes.{Bytes, le16_at}
use comelit_man.Client.{Channel, Client, register_placeholder_channel}
use comelit_man.Client
use comelit_man.VideoCall.State.{Session, ctr_incr_byte4, ctr_incr_byte5, our_addr}
use comelit_man.VideoCall.Names.{udpm_name, rtpc_name, rtpc2_name, device_name}
use comelit_man.VideoCall.Codec.{be16_or_zero, Peers}
use comelit_man.VideoCall.Start.{with_receiver, start_receiver, Media}
use comelit_man.Protocol.Call.{
  encode_call_ack, encode_rtpc_link, encode_video_config, encode_call_response_ack,
  encode_rtpc2_ready,
}

abbrev pub is_message : ℕ → ℕ → Bytes → Bool
is_message prefix action d = le16_at d 0 == prefix && be16_or_zero d 6 == action

-- The ACK of a registration renewal and its confirmation.
unfoldable pub renewal_pair : Channel → Peers → ℕ → Talk (Unit {0})
renewal_pair ctpp p renewal_ack_ts = do
  say ctpp (encode_call_response_ack p.ours p.theirs renewal_ack_ts 0x1800)
  say ctpp (encode_call_response_ack p.ours p.theirs renewal_ack_ts 0x1820)

abbrev is_renewal : ℕ → Bytes → Bool
is_renewal renewal_ack_ts d = is_message 0x1860 0x0010 d && not (renewal_ack_ts == 0)

unfoldable pub bundle_heard :
    Channel → Peers → ℕ → ℕ → Talk (Unit {0}) → Option Bytes → Talk (Unit {0})
bundle_heard ctpp p fresh_ts renewal_ack_ts again none = pure tt
bundle_heard ctpp p fresh_ts renewal_ack_ts again (some d) =
    if ltb (length d) 2
    then again
    else if is_message 0x18c0 0x0029 d
    then say ctpp (encode_call_response_ack p.ours p.theirs fresh_ts 0x1800) >> again
    else if is_renewal renewal_ack_ts d
    then renewal_pair ctpp p renewal_ack_ts >> again
    else if le16_at d 0 == 0x18c0
    then again
    else pure tt

-- The wait for the device's responses, which ends at the first that is no retransmitted ring, or
-- at the time-out; one unit of fuel for each read.
unfoldable pub await_bundle : ℕ → Channel → Peers → ℕ → ℕ → Talk (Unit {0})
await_bundle zero ctpp p fresh_ts renewal_ack_ts = pure tt
await_bundle (suc fuel) ctpp p fresh_ts renewal_ack_ts =
    listen
    >>= bundle_heard ctpp p fresh_ts renewal_ack_ts
        (await_bundle fuel ctpp p fresh_ts renewal_ack_ts)

unfoldable pub drain_heard : Channel → Peers → ℕ → Talk (Unit {0}) → Option Bytes → Talk (Unit {0})
drain_heard ctpp p renewal_ack_ts again none = pure tt
drain_heard ctpp p renewal_ack_ts again (some d) =
    if leb 8 (length d) && is_renewal renewal_ack_ts d
    then renewal_pair ctpp p renewal_ack_ts >> again
    else again

-- The messages that are queued by now; `none` is the empty queue.
unfoldable pub drain_bundle : ℕ → Channel → Peers → ℕ → Talk (Unit {0})
drain_bundle zero ctpp p renewal_ack_ts = pure tt
drain_bundle (suc fuel) ctpp p renewal_ack_ts =
    listen >>= drain_heard ctpp p renewal_ack_ts (drain_bundle fuel ctpp p renewal_ack_ts)

-- The signalling on the CTPP channel. Every counter is kept within 32 bits.
unfoldable pub accept_media : Channel → Peers → ℕ → ℕ → Talk Media
accept_media ctpp p fresh_ts renewal_ack_ts = do
  lift_client (λ c. Client.register_placeholder_channel c device_name)
  change (λ s. record s { has_inbound_rtpc = true })
  say ctpp (encode_call_response_ack p.ours p.theirs fresh_ts 0x1800)
  asked1 ← request_open rtpc_name none 1 none
  asked2 ← request_open udpm_name none 1 none
  say ctpp (encode_call_ack p.ours p.theirs fresh_ts 0x07)
  rtpc1 ← await_open rtpc_name asked1
  udpm ← await_open udpm_name asked2
  start_receiver udpm
  s ← get
  await_bundle (length s.device.reads) ctpp p fresh_ts renewal_ack_ts
  t ← get
  drain_bundle (length t.device.reads) ctpp p renewal_ack_ts
  let second = (fresh_ts + ctr_incr_byte5) % 2 ^ 32
  say ctpp (encode_call_response_ack p.ours p.theirs second 0x1800)
  asked3 ← request_open rtpc2_name none 1 (some rtpc_name)
  say ctpp (encode_call_ack p.ours p.theirs second 0x07)
  rtpc2 ← await_open rtpc2_name asked3
  change (with_receiver (λ r. record r { media_req_id = rtpc2.server_channel_id; running = true }))
  let ready = (second + ctr_incr_byte4) % 2 ^ 32
  say ctpp (encode_rtpc2_ready p.ours p.theirs ready)
  let link = (ready + ctr_incr_byte4) % 2 ^ 32
  say ctpp (encode_rtpc_link p.ours p.theirs rtpc1.server_channel_id link false)
  let config = (link + ctr_incr_byte4) % 2 ^ 32
  say ctpp (encode_video_config p.ours p.theirs rtpc2.server_channel_id config 320 240 16)
  let again = (config + ctr_incr_byte4) % 2 ^ 32
  say ctpp (encode_video_config p.ours p.theirs rtpc2.server_channel_id again 320 240 16)
  pure (record {
    rtpc1_id = rtpc1.server_channel_id;
    media_id = rtpc2.server_channel_id;
    counter = again;
  })

abbrev pub on_ctpp : {A : Type 0} → Option Channel → (Channel → Talk A) → Talk A
on_ctpp none go = raise video_call_error
on_ctpp (some ctpp) go = go ctpp

-- The addresses of an inbound call: the base address stands for the other side.
abbrev pub inbound_peers : Session → Peers
inbound_peers s = record { ours = our_addr s; theirs = s.apt_address }
