-- ===== src/Tests/Signalling.antt =====
-- The signalling channel at concrete inputs.
use comelit_man.Prelude.{
  Text, IsAscii, IsAscii-append, ◌^◌, ◌<◌, ◌≡◌, refl, true, false, some, List, [], ◌∷◌, ◌++◌, map,
  arith, if◌then◌else◌, ok,
}
use comelit_man.Bytes.{Bytes, pack_le16, pack_be16, pack_le32, encode_ascii, same_bytes}
use comelit_man.Protocol.Call.{call_addresses, encode_call_response_ack}
use comelit_man.Tests.Messages.{apartment, sub_apartment}
use comelit_man.Vip.Message.{message_of, parse_ctpp_message}
use comelit_man.Handshake.Renewal.{send_renewal_ack-ack_pair}
use comelit_man.Vip.Listener.{
  Listener, prefix_vip_event, prefix_call_init, action_registration_renewal, new_listener, count,
  repeated, solo, insert_longest, longest_first, resolve_ack_addresses, send_renewal_ack,
  fire_event, caller_for, process_message, listen_loop, ring, send, inbound_ring,
}
use comelit_man.Vip.Timestamp.{transform_device_ts}
use comelit_man.Vip.Address.{
  is_hex, hex_run, end_of_digits, match_digits, match_address, find_addresses,
}
use comelit_man.Protocol.Ctpp.{null_terminated}
use comelit_man.Vip.Listener.Answers.{ack_bytes, process_message-renewal, process_message-call_init}
use comelit_man.Vip.Listener.Spacing.{Spaced, listen_loop-Spaced}
use comelit_man.Handshake.{ack_pair}

abbrev listener : Listener
listener = record {
  apt_address = apartment;
  apt_subaddress = b'2' ∷ [];
  ack_ts = 0x01020304;
  on_inbound_ring = false;
  on_call_idle = true;
  last_fired = λ e. 0;
}

same_order : List Text → List Text
same_order addrs = addrs

abbrev renewal_data : Bytes
renewal_data =
    0x60
    ∷ 0x18
    ∷ 0x01
    ∷ 0x02
    ∷ 0x03
    ∷ 0x04
    ∷ 0x00
    ∷ 0x10
    ∷ 0x00
    ∷ 0x00
    ∷ 0xff
    ∷ 0xff
    ∷ 0xff
    ∷ 0xff
    ∷ (sub_apartment ++ 0x00 ∷ (apartment ++ 0x00 ∷ 0x00 ∷ []))

renewal_parsed : parse_ctpp_message renewal_data ≡ some (message_of renewal_data)
unfolding parse_ctpp_message
renewal_parsed = refl

renewal_prefix : (message_of renewal_data).prefix ≡ prefix_vip_event
unfolding message_of
renewal_prefix = refl

renewal_action : (message_of renewal_data).action ≡ action_registration_renewal
unfolding message_of
renewal_action = refl

renewal_resolved :
    resolve_ack_addresses same_order listener (message_of renewal_data).addresses
    ≡ (sub_apartment, apartment)
unfolding same_order resolve_ack_addresses repeated solo count same_bytes longest_first
    insert_longest message_of find_addresses match_address match_digits end_of_digits hex_run is_hex
renewal_resolved = refl

IsAscii-apartment : IsAscii apartment
IsAscii-apartment =
    (omega arith, (omega arith, (omega arith, (omega arith, (omega arith, (omega arith, tt))))))

IsAscii-sub_apartment : IsAscii sub_apartment
IsAscii-sub_apartment = IsAscii-append apartment (b'2' ∷ []) IsAscii-apartment (omega arith, tt)

process_message-renewal_example : process_message same_order listener 5 renewal_data ≡ (
  listener,
  send (ack_bytes sub_apartment apartment listener.ack_ts 0x1800)
      ∷ send (ack_bytes sub_apartment apartment listener.ack_ts 0x1820)
      ∷ [],
)
process_message-renewal_example =
    process_message-renewal same_order listener 5 renewal_data renewal_parsed renewal_prefix
      renewal_action renewal_resolved IsAscii-sub_apartment IsAscii-apartment (omega arith)

abbrev call_data : Bytes
call_data =
    0xc0
    ∷ 0x18
    ∷ 0x01
    ∷ 0x02
    ∷ 0x03
    ∷ 0x04
    ∷ 0x00
    ∷ 0x28
    ∷ 0x00
    ∷ 0x01
    ∷ 0xff
    ∷ 0xff
    ∷ 0xff
    ∷ 0xff
    ∷ (apartment ++ 0x00 ∷ (sub_apartment ++ 0x00 ∷ 0x00 ∷ []))

call_parsed : parse_ctpp_message call_data ≡ some (message_of call_data)
unfolding parse_ctpp_message
call_parsed = refl

call_prefix : (message_of call_data).prefix ≡ prefix_call_init
unfolding message_of
call_prefix = refl

call_ts : transform_device_ts (message_of call_data).timestamp < 2 ^ 32
unfolding transform_device_ts message_of
call_ts = omega arith

process_message-call_init_example : process_message same_order listener 20000000 call_data ≡ (
    if listener.on_inbound_ring
    then (
      listener,
      inbound_ring (caller_for listener (message_of call_data)) (message_of call_data).timestamp
          ∷ [],
    )
    else (
      (fire_event listener 20000000 ring (message_of call_data).addresses).0,
      send (
            ack_bytes
              (listener.apt_address ++ listener.apt_subaddress)
              listener.apt_address
              (transform_device_ts (message_of call_data).timestamp)
              0x1800)
          ∷ (fire_event listener 20000000 ring (message_of call_data).addresses).1,
    ))
process_message-call_init_example =
    process_message-call_init same_order listener 20000000 call_data call_parsed call_prefix
      IsAscii-sub_apartment IsAscii-apartment call_ts

listen_loop-Spaced_example :
    let result =
      listen_loop same_order listener ((20000000, call_data) ∷ (21000000, call_data) ∷ []) in
    Spaced ring (listener.last_fired ring) result.1 (result.0.last_fired ring)
listen_loop-Spaced_example =
    listen_loop-Spaced ring same_order listener ((20000000, call_data) ∷ (21000000, call_data) ∷ [])

abbrev pair_5 : List Bytes
pair_5 =
    ack_bytes sub_apartment apartment 0x01010005 0x1800
    ∷ ack_bytes sub_apartment apartment 0x01010005 0x1820
    ∷ []

pair_5_built : ack_pair (apartment ++ b'2' ∷ []) apartment (some 5) ≡ ok pair_5
unfolding ack_pair encode_call_response_ack pack_le16 pack_le32 pack_be16 call_addresses
    encode_ascii null_terminated
pair_5_built = refl

named_resolved :
    resolve_ack_addresses same_order
      (new_listener apartment (b'2' ∷ []) 5 true true)
      (message_of renewal_data).addresses
    ≡ (apartment ++ b'2' ∷ [], apartment)
unfolding same_order resolve_ack_addresses repeated solo count same_bytes longest_first
    insert_longest message_of find_addresses match_address match_digits end_of_digits hex_run is_hex
named_resolved = refl

send_renewal_ack-ack_pair_example :
    send_renewal_ack same_order
      (new_listener apartment (b'2' ∷ []) 5 true true)
      (message_of renewal_data)
    ≡ map send pair_5
send_renewal_ack-ack_pair_example =
    send_renewal_ack-ack_pair same_order apartment (b'2' ∷ []) 5 true true (message_of renewal_data)
      named_resolved pair_5_built
