-- ===== src/VideoCall/Answer.antt =====
-- `answer_inbound`: an inbound call is answered, and audio started.
use comelit_man.VideoCall.Talk.{Talk, ◌>>=◌, ◌>>◌, pure, get, change, emit, say, await_rtpc}
use comelit_man.Prelude.{
  ℕ, ◌+◌, ◌%◌, ◌^◌, Bool, true, false, ◌&&◌, Option, none, some, List, [], ◌∷◌, ltb, ◌==◌,
  if◌then◌else◌, length, Result, ok,
}
use comelit_man.Bytes.{Bytes, le32_at}
use comelit_man.Client.{Channel, get_channel}
use comelit_man.VideoCall.State.{Session, ctr_incr_byte4, audio_started}
use comelit_man.VideoCall.Names.{ctpp_name, device_name}
use comelit_man.VideoCall.Codec.{Peers}
use comelit_man.VideoCall.Inbound.{is_message, inbound_peers}
use comelit_man.Protocol.Call.{encode_call_response_ack, encode_answer_peer, encode_call_accepted}
use comelit_man.Vip.Timestamp.{transform_device_ts}

-- The loop over what the monitor hands over until the deadline; it ends when a link and a peer
-- message have both been acknowledged.
unfoldable pub drain_answers : Channel → Peers → Bool → Bool → List Bytes → Talk (Unit {0})
drain_answers ctpp p true true ds = pure tt
drain_answers ctpp p link peer [] = pure tt
drain_answers ctpp p link peer (d ∷ ds) =
    let again = drain_answers ctpp p link peer ds in
    if ltb (length d) 8
    then again
    else if is_message 0x1840 0x000a d
    then say ctpp
        (encode_call_response_ack p.ours p.theirs (transform_device_ts (le32_at d 2)) 0x1800)
      >> drain_answers ctpp p true peer ds
    else if is_message 0x1840 0x000e d
    then say ctpp
        (encode_call_response_ack p.ours p.theirs (transform_device_ts (le32_at d 2)) 0x1800)
      >> drain_answers ctpp p link true ds
    else again

abbrev raise_counter : Talk ℕ
raise_counter s =
    let counter = (s.call_counter + ctr_incr_byte4) % 2 ^ 32 in
    (record s { call_counter = counter }, ok counter)

-- The two messages that answer, and the ACKs; `finally` clears the handoff queue.
unfoldable pub send_answer : Channel → Peers → List Bytes → Talk (Unit {0})
send_answer ctpp p handed = do
  first ← raise_counter
  say ctpp (encode_answer_peer p.ours p.theirs first false true)
  second ← raise_counter
  say ctpp (encode_call_accepted p.ours p.theirs second)
  drain_answers ctpp p false false handed

abbrev pub finally_clear : Session × Result (Unit {0}) → Session × Result (Unit {0})
finally_clear (s, r) = (record s { answer_handoff = none }, r)

abbrev link_opened : Option ℕ → Talk (Unit {0})
link_opened none = pure tt
link_opened (some id) = change (λ s. record s { device_rtpc_req_id = id })

unfoldable pub start_audio : Talk (Unit {0})
start_audio = do
  s ← get
  (if s.has_inbound_rtpc then await_rtpc device_name >>= link_opened else pure tt)
  t ← get
  (elim t.receiver [
    | none ↦ pure tt
    | some r ↦
        if t.device_rtpc_req_id == 0 then pure tt else emit (audio_started t.device_rtpc_req_id)
  ])

abbrev with_ctpp : Option Channel → (Channel → Talk (Unit {0})) → Talk (Unit {0})
with_ctpp none go = pure tt
with_ctpp (some ctpp) go = go ctpp

abbrev is_some : {A : Type 0} → Option A → Bool
is_some none = false
is_some (some a) = true

-- `handed` is what the monitor hands over while the loop waits.
unfoldable pub answer_inbound : List Bytes → Talk (Unit {0})
answer_inbound handed s =
    (if s.active && is_some s.receiver && s.device_rtpc_req_id == 0
        then with_ctpp (get_channel s.client ctpp_name) (λ ctpp.
          (λ t.
            finally_clear
              (send_answer ctpp (inbound_peers s) handed (record t { answer_handoff = some [] })))
          >> start_audio)
        else pure tt)
      s
