-- ===== src/VideoCall/Start.antt =====
-- `start` and `_cleanup`: a call that this side makes, and its end.
pub mod Door
pub mod Release
use comelit_man.VideoCall.Talk.{
  Talk, ◌>>=◌, ◌>>◌, pure, raise, get, change, emit, listen, say, open_channel, await_rtpc,
  lift_client, catch,
}
use comelit_man.Prelude.{
  Text, ℕ, ◌+◌, ◌%◌, ◌^◌, Bool, true, false, ◌&&◌, Option, none, some, List, [], ◌∷◌, leb,
  if◌then◌else◌, length, video_call_error, runtime_error,
}
use comelit_man.Bytes.{Bytes, le16_at}
use comelit_man.Client.{Channel, Client, register_placeholder_channel, remove_channel, get_channel}
use comelit_man.Client
use comelit_man.Receiver.State.{Receiver, init}
use comelit_man.Receiver.State
use comelit_man.VideoCall.State.{Session, ctr_incr_byte4, our_addr, ts, rtsp_reset}
use comelit_man.VideoCall.Names.{
  ctpp_name, cspb_name, udpm_name, rtpc_name, rtpc2_name, device_name, media_names,
}
use comelit_man.VideoCall.Codec.{Peers, run_codec_exchange, ack_device_rtpc_link}
use comelit_man.Protocol.Call.{
  encode_call_init, encode_call_ack, encode_rtpc_link, encode_video_config,
  encode_call_response_ack, encode_answer_peer, encode_door_open_during_video,
}
use comelit_man.Protocol.Ctpp.{encode_ctpp_init}

-- `ctpp_init_sequence` with the ACK pair, in a session: the two responses are read between.
unfoldable pub handshake : Channel → Text → ℕ → Text → ℕ → Talk (Unit {0})
handshake ctpp apt_addr apt_sub our timestamp = do
  say ctpp (encode_ctpp_init apt_addr apt_sub (some timestamp))
  listen
  listen
  let ack_ts = (timestamp + 0x01010000) % 2 ^ 32
  say ctpp (encode_call_response_ack our apt_addr ack_ts 0x1800)
  say ctpp (encode_call_response_ack our apt_addr ack_ts 0x1820)

abbrev open_cspb : Option Channel → Talk (Unit {0})
open_cspb (some ch) = pure tt
open_cspb none = open_channel cspb_name none 0 none >> pure tt

-- The CTPP channel: the coordinator's, or one of the session's own.
unfoldable pub attach_ctpp : Option Channel → Talk Channel
attach_ctpp (some ctpp) = do
  change (λ s. record s { owns_ctpp = false })
  s ← get
  open_cspb (get_channel s.client cspb_name)
  pure ctpp
attach_ctpp none = do
  change (λ s. record s { owns_ctpp = true })
  s ← get
  ctpp ← open_channel ctpp_name (some (our_addr s)) 0 none
  open_channel cspb_name none 0 none
  handshake ctpp s.apt_address s.apt_subaddress (our_addr s) (ts s)
  pure ctpp

-- The token in the response to the UDPM channel's open.
abbrev pub token_in : Bytes → ℕ
token_in body = if leb 18 (length body) then le16_at body 16 else 0

abbrev reset_rtsp : Talk (Unit {0})
reset_rtsp s =
    (if s.has_rtsp && s.external_rtsp
        then emit rtsp_reset
        else change (λ t. record t { has_rtsp = true }))
      s

abbrev pub with_receiver : (Receiver → Receiver) → Session → Session
with_receiver f s = record s { receiver = elim s.receiver [ none ↦ none | some r ↦ some (f r) ] }

-- The receiver is created, the RTSP server reset or made, and the control socket opened.
unfoldable pub start_receiver : Channel → Talk (Unit {0})
start_receiver udpm = do
  reset_rtsp
  change (λ s. record s {
    receiver = some (State.init udpm.server_channel_id 0 (token_in udpm.open_response_body));
  })

abbrev required : Option ℕ → Talk (Unit {0})
required none = raise video_call_error
required (some id) = pure tt

-- What the monitor of a session is started with: the two ids of its media channels and the counter.
pub record Media : Type 0 where
  pub rtpc1_id : ℕ
  pub media_id : ℕ
  pub counter : ℕ

-- The signalling of `start` on its CTPP channel, from the call's init on.
unfoldable pub place_call : Channel → Peers → ℕ → Talk Media
place_call ctpp p call_ts = do
  lift_client (λ c. Client.register_placeholder_channel c device_name)
  say ctpp (encode_call_init p.ours p.theirs call_ts)
  udpm ← open_channel udpm_name none 1 none
  start_receiver udpm
  listen
  let codec = call_ts + ctr_incr_byte4
  say ctpp (encode_call_ack p.ours p.theirs codec 0x27)
  counter ← run_codec_exchange 10 ctpp p codec
  rtpc1 ← open_channel rtpc_name none 1 none
  rtpc2 ← open_channel rtpc2_name none 1 (some rtpc_name)
  say ctpp (encode_rtpc_link p.ours p.theirs rtpc1.server_channel_id counter false)
  let config = counter + ctr_incr_byte4
  say ctpp (encode_video_config p.ours p.theirs rtpc2.server_channel_id config 800 480 16)
  device ← await_rtpc device_name
  required device
  linked ← ack_device_rtpc_link 5 ctpp p config
  let hangup = linked + ctr_incr_byte4
  say ctpp (encode_call_response_ack p.ours p.theirs hangup 0x1840)
  change (with_receiver (λ r. record r { media_req_id = rtpc2.server_channel_id; running = true }))
  pure (record {
    rtpc1_id = rtpc1.server_channel_id;
    media_id = rtpc2.server_channel_id;
    counter = hangup;
  })

-- The names that `_cleanup` takes out of the registry.
abbrev pub released : Session → List Text
released s = if s.owns_ctpp then ctpp_name ∷ cspb_name ∷ media_names else media_names

unfoldable pub remove_all : List Text → Client.Client → Client.Client
remove_all [] c = c
remove_all (n ∷ ns) c = remove_all ns (Client.remove_channel c n)

unfoldable pub cleanup : Session → Session
cleanup s = record s {
  active = false;
  has_inbound_rtpc = false;
  answer_handoff = none;
  receiver = none;
  has_rtsp = s.has_rtsp && s.external_rtsp;
  client = remove_all (released s) s.client;
}

-- Every exception becomes `VideoCallError`, behind the clean-up.
abbrev pub or_clean : {A : Type 0} → Talk A → Talk A
or_clean m = catch m (λ e. change cleanup >> raise video_call_error)

-- `_send_answer_sequence`, which runs in the background once video has arrived.
unfoldable pub send_answer_sequence : Channel → Peers → Talk (Unit {0})
send_answer_sequence ctpp p = do
  change (λ s. record s { call_counter = s.call_counter + ctr_incr_byte4 })
  s ← get
  say ctpp (encode_answer_peer p.ours p.theirs s.call_counter false false)

abbrev on_channel : Option Channel → Bool → (Channel → Talk (Unit {0})) → Talk (Unit {0})
on_channel (some ctpp) true go = go ctpp
on_channel (some ctpp) false go = raise runtime_error
on_channel none active go = raise runtime_error

-- `async_open_door_on_ctpp`
unfoldable pub open_door_on_ctpp : Peers → ℕ → Talk (Unit {0})
open_door_on_ctpp p relay_index = do
  s ← get
  on_channel (get_channel s.client ctpp_name) s.active (λ ctpp. do
    change (λ t. record t { call_counter = t.call_counter + ctr_incr_byte4 })
    t ← get
    say ctpp (encode_door_open_during_video p.ours p.theirs t.call_counter relay_index))
