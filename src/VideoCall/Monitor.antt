-- ===== src/VideoCall/Monitor.antt =====
-- `_ctpp_monitor_loop` and `_forward_ring`: what the device's messages do during a call.
pub mod Short
use comelit_man.VideoCall.Talk.{Talk, ◌>>=◌, ◌>>◌, pure, get, change, emit, listen, say, catch}
use comelit_man.Prelude.{
  Text, ℕ, zero, suc, Bool, false, ◌&&◌, Option, none, some, List, [], ◌∷◌, ◌++◌, ltb, leb, ◌==◌,
  if◌then◌else◌, length, ok,
}
use comelit_man.Bytes.{Bytes, le16_at, le32_at, unpack_le32, same_bytes}
use comelit_man.Client.{Channel}
use comelit_man.VideoCall.State.{Session, ring_forwarded, call_ended}
use comelit_man.VideoCall.Codec.{be16_or_zero, Peers}
use comelit_man.VideoCall.Renew.{lift_result, inline_reestablish}
use comelit_man.Protocol.Call.{encode_call_response_ack}
use comelit_man.Vip.Message.{Message, parse_ctpp_message}
use comelit_man.Vip.Timestamp.{transform_device_ts}

abbrev pub has_floor_tag : Option Bytes → Bool
has_floor_tag none = false
has_floor_tag (some tag) = same_bytes tag (b'F' ∷ b'F' ∷ [])

abbrev pub first_address : List Text → Text
first_address [] = []
first_address (a ∷ rest) = a

-- The station that rings: our own apartment for the floor door.
unfoldable pub ring_caller : Session → Message → Text
ring_caller s msg =
    if has_floor_tag msg.call_tag && ltb 0 (length s.apt_address)
    then s.apt_address
    else first_address msg.addresses

abbrev forward_message : Option Message → Talk (Unit {0})
forward_message none s = (s, ok tt)
forward_message (some msg) s = emit (ring_forwarded (ring_caller s msg) msg.timestamp) s

unfoldable pub forward_ring : Bytes → Talk (Unit {0})
forward_ring d s = (if s.has_on_ring then forward_message (parse_ctpp_message d) else pure tt) s

-- One message ends the loop, or leaves it with the counter.
pub data Turn : Type 0 where
  stop : Turn
  go_on : ℕ → Turn

-- The ACK with the transformed timestamp, whose unpacking raises on a message of less than six
-- bytes.
unfoldable pub ack_transformed : Channel → Peers → Bytes → Talk (Unit {0})
ack_transformed ctpp p resp = lift_result (unpack_le32 resp 2) >>= λ device_ts.
    say ctpp (encode_call_response_ack p.ours p.theirs (transform_device_ts device_ts) 0x1800)

-- A renewal that raises ends the session for the coordinator to restart.
abbrev end_call : Talk Turn
end_call = do
  change (λ s. record s { active = false })
  s ← get
  (if s.has_on_call_end then emit call_ended else pure tt)
  pure stop

unfoldable pub on_call_end : Channel → Peers → ℕ → ℕ → ℕ → Bytes → Talk Turn
on_call_end ctpp p rtpc1_id media_id counter resp =
    catch
      (do
        let call_end_ts = if leb 6 (length resp) then le32_at resp 2 else 0
        renewed ← inline_reestablish ctpp p rtpc1_id media_id counter call_end_ts
        change (λ s. record s { call_counter = renewed })
        pure (go_on renewed))
      (λ e. end_call)

abbrev hand_over : Channel → Peers → Bytes → Option (List Bytes) → Talk (Unit {0})
hand_over ctpp p resp none = ack_transformed ctpp p resp
hand_over ctpp p resp (some queue) =
    change (λ s. record s { answer_handoff = some (queue ++ resp ∷ []) })

unfoldable pub keepalive : Channel → Peers → Bytes → Talk (Unit {0})
keepalive ctpp p resp s = hand_over ctpp p resp s.answer_handoff s

unfoldable pub react : Channel → Peers → ℕ → ℕ → ℕ → Bytes → Talk Turn
react ctpp p rtpc1_id media_id counter resp =
    if le16_at resp 0 == 0x1840
    then (if be16_or_zero resp 6 == 0x0003
        then on_call_end ctpp p rtpc1_id media_id counter resp
        else keepalive ctpp p resp >> pure (go_on counter))
    else if le16_at resp 0 == 0x1860
    then ack_transformed ctpp p resp
      >> ((if be16_or_zero resp 6 == 0x0001 then forward_ring resp else pure tt)
          >> pure (go_on counter))
    else if le16_at resp 0 == 0x18c0
    then forward_ring resp >> pure (go_on counter)
    else pure (go_on counter)

unfoldable pub monitor_heard : Channel → Peers → ℕ → ℕ → ℕ → Option Bytes → Talk Turn
monitor_heard ctpp p rtpc1_id media_id counter none = pure (go_on counter)
monitor_heard ctpp p rtpc1_id media_id counter (some resp) =
    if ltb (length resp) 2
    then pure (go_on counter)
    else react ctpp p rtpc1_id media_id counter resp

abbrev turned : (ℕ → Talk (Unit {0})) → Turn → Talk (Unit {0})
turned next stop = pure tt
turned next (go_on counter) = next counter

-- The loop while the session is active, for a number of reads; any exception ends it, and is only
-- logged.
unfoldable pub monitor_loop : ℕ → Channel → Peers → ℕ → ℕ → ℕ → Talk (Unit {0})
monitor_loop zero ctpp p rtpc1_id media_id counter s = (s, ok tt)
monitor_loop (suc reads) ctpp p rtpc1_id media_id counter s =
    (if s.active
        then catch
            (listen
              >>= monitor_heard ctpp p rtpc1_id media_id counter
              >>= turned (monitor_loop reads ctpp p rtpc1_id media_id))
            (λ e. pure tt)
        else pure tt)
      s
