-- ===== src/VideoCall/Renew.antt =====
-- `_inline_reestablish`: the call made anew on the same channels when the device ends it.
pub mod Address
use comelit_man.VideoCall.Talk.{
  Talk, ◌>>=◌, ◌>>◌, pure, get, emit, listen, say, await_rtpc, lift_client,
}
use comelit_man.Prelude.{
  Text, ℕ, ◌+◌, ◌-◌, ◌%◌, ◌^◌, true, false, ◌&&◌, Option, none, some, [], ◌∷◌, leb, ◌==◌,
  if◌then◌else◌, Result, value_error, err, ok,
}
use comelit_man.Client.{Channel, Client, register_placeholder_channel}
use comelit_man.Client
use comelit_man.VideoCall.State.{ctr_incr_byte4, ctr_incr_byte5, ts, rtsp_reset}
use comelit_man.VideoCall.Names.{reest_name}
use comelit_man.VideoCall.Codec.{Peers, run_codec_exchange, ack_device_rtpc_link}
use comelit_man.VideoCall.Start.{handshake}
use comelit_man.Protocol.Call.{
  encode_call_init, encode_call_ack, encode_rtpc_link, encode_video_config,
  encode_call_response_ack, encode_answer_peer,
}
use comelit_man.Vip.Timestamp.{transform_device_ts}

-- `our_addr[:-1]` and `our_addr[-1]`; `none` is the `IndexError` on the empty address.
unfoldable pub split_last : Text → Option (Text × ℕ)
split_last [] = none
split_last (c ∷ s) = elim (split_last s) [
  | none ↦ some ([], c)
  | some (front, last) ↦ some (c ∷ front, last)
]

-- `int(…)` of one ASCII character.
abbrev pub digit_value : Option (Text × ℕ) → Result (Text × ℕ)
digit_value none = err value_error
digit_value (some (front, c)) =
    if leb b'0' c && leb c b'9' then ok (front, c - b'0') else err value_error

-- The apartment's address and its sub-address, taken back from the full address.
unfoldable pub apartment_of : Text → Result (Text × ℕ)
unfolding split_last
apartment_of our = digit_value (split_last our)

abbrev pub lift_result : {A : Type 0} → Result A → Talk A
lift_result r s = (s, r)

-- The rest of the renewal, from the address that its first lines computed.
unfoldable pub renew_call : Channel → Peers → ℕ → ℕ → ℕ → ℕ → Text × ℕ → Talk ℕ
renew_call ctpp p rtpc1_id media_id counter call_end_ts (apt_addr, apt_sub) = do
  let ack_ts =
      if call_end_ts == 0
      then (counter + ctr_incr_byte5) % 2 ^ 32
      else transform_device_ts call_end_ts
  say ctpp (encode_call_response_ack p.ours p.theirs ack_ts 0x1800)
  s ← get
  let init_ts = ts s
  handshake ctpp apt_addr apt_sub p.ours init_ts
  lift_client (λ c. Client.register_placeholder_channel c reest_name)
  let call_ts = (init_ts + 1) % 2 ^ 32
  say ctpp (encode_call_init p.ours p.theirs call_ts)
  listen
  let codec = call_ts + ctr_incr_byte4
  say ctpp (encode_call_ack p.ours p.theirs codec 0x27)
  exchanged ← run_codec_exchange 10 ctpp p codec
  say ctpp (encode_rtpc_link p.ours p.theirs rtpc1_id exchanged false)
  let config = exchanged + ctr_incr_byte4
  say ctpp (encode_video_config p.ours p.theirs media_id config 800 480 16)
  await_rtpc reest_name
  linked ← ack_device_rtpc_link 5 ctpp p config
  let hangup = linked + ctr_incr_byte4
  say ctpp (encode_call_response_ack p.ours p.theirs hangup 0x1840)
  let peer = hangup + ctr_incr_byte4
  say ctpp (encode_answer_peer p.ours p.theirs peer true false)
  t ← get
  (if t.has_rtsp then emit rtsp_reset else pure tt)
  pure peer

unfoldable pub inline_reestablish : Channel → Peers → ℕ → ℕ → ℕ → ℕ → Talk ℕ
inline_reestablish ctpp p rtpc1_id media_id counter call_end_ts =
    lift_result (apartment_of p.ours) >>= renew_call ctpp p rtpc1_id media_id counter call_end_ts
