-- ===== src/VideoCall/Codec.antt =====
-- The exchanges with counters that the call's start and its renewal share.
pub mod Counters
use comelit_man.VideoCall.Talk.{Talk, ◌>>=◌, ◌>>◌, pure, listen, say}
use comelit_man.Prelude.{
  Text, ℕ, zero, suc, ◌+◌, Bool, not, ◌&&◌, ◌||◌, Option, none, some, ltb, leb, ◌==◌, if◌then◌else◌,
  length,
}
use comelit_man.Bytes.{Bytes, le16_at, be16_at}
use comelit_man.Client.{Channel}
use comelit_man.Protocol.Call.{encode_call_response_ack}
use comelit_man.VideoCall.State.{ctr_incr_byte4, ctr_incr_byte5}
use comelit_man.Vip.Timestamp.{ctr_incr_both}

-- `struct.unpack_from(">H", resp, i)[0] if len(resp) >= i + 2 else 0`
abbrev pub be16_or_zero : Bytes → ℕ → ℕ
be16_or_zero d i = if leb (i + 2) (length d) then be16_at d i else 0

-- The addresses that an ACK carries, our own and the other side's.
pub record Peers : Type 0 where
  pub ours : Text
  pub theirs : Text

unfoldable pub ack_counter : Channel → Peers → ℕ → Talk ℕ
ack_counter ctpp p counter =
    say ctpp (encode_call_response_ack p.ours p.theirs counter 0x1800) >> pure counter

-- What a message makes the exchange do: skip it, acknowledge it with the counter raised, or
-- acknowledge it and end.
pub data CodecAction : Type 0 where
  ignore : CodecAction
  raise_by : ℕ → CodecAction
  accept : CodecAction

unfoldable pub codec_action : Bytes → CodecAction
codec_action resp =
    if not (le16_at resp 0 == 0x1840)
    then ignore
    else if be16_or_zero resp 6 == 0x0008
    then raise_by ctr_incr_both
    else if be16_or_zero resp 6 == 0x0002
    then accept
    else raise_by ctr_incr_byte4

unfoldable pub codec_react : Channel → Peers → ℕ → CodecAction → (ℕ → Talk ℕ) → Talk ℕ
codec_react ctpp p counter ignore next = next counter
codec_react ctpp p counter (raise_by n) next = ack_counter ctpp p (counter + n) >>= next
codec_react ctpp p counter accept next = ack_counter ctpp p (counter + ctr_incr_byte5)

-- A time-out or a message of less than two bytes ends the exchange.
unfoldable pub codec_heard : Channel → Peers → ℕ → (ℕ → Talk ℕ) → Option Bytes → Talk ℕ
codec_heard ctpp p counter next none = pure counter
codec_heard ctpp p counter next (some resp) =
    if ltb (length resp) 2
    then pure counter
    else codec_react ctpp p counter (codec_action resp) next

-- `_run_codec_exchange`, with the rounds that its loop has left, ten at first.
unfoldable pub run_codec_exchange : ℕ → Channel → Peers → ℕ → Talk ℕ
run_codec_exchange zero ctpp p counter = pure counter
run_codec_exchange (suc rounds) ctpp p counter =
    listen >>= codec_heard ctpp p counter (run_codec_exchange rounds ctpp p)

abbrev pub is_link : Bytes → Bool
is_link resp =
    (le16_at resp 0 == 0x1840 || le16_at resp 0 == 0x1860) && be16_or_zero resp 6 == 0x000a

unfoldable pub link_heard : Channel → Peers → ℕ → (ℕ → Talk ℕ) → Option Bytes → Talk ℕ
link_heard ctpp p counter next none = pure counter
link_heard ctpp p counter next (some resp) =
    if ltb (length resp) 2
    then pure counter
    else if is_link resp
    then ack_counter ctpp p (counter + ctr_incr_byte5)
    else next counter

-- `_ack_device_rtpc_link`, with the rounds left, five at first.
unfoldable pub ack_device_rtpc_link : ℕ → Channel → Peers → ℕ → Talk ℕ
ack_device_rtpc_link zero ctpp p counter = pure counter
ack_device_rtpc_link (suc rounds) ctpp p counter =
    listen >>= link_heard ctpp p counter (ack_device_rtpc_link rounds ctpp p)
