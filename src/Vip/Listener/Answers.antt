-- ===== src/Vip/Listener/Answers.antt =====
-- What the listener answers to the device's messages.
use comelit_man.Prelude.{
  Text, IsAscii, ℕ, ◌^◌, ◌≤◌, ◌<◌, ◌≡◌, refl, ◌∙◌, ◌⊎◌, inl, inr, false, some, List, [], ◌∷◌, ◌++◌,
  arith, ◌==◌, if◌then◌else◌, le→leb, Bool-cases, length, ok,
}
use comelit_man.Bytes.{Bytes, le16, be16, le32}
use comelit_man.Bytes.Laws.{pack_le16-ok, pack_le32-ok}
use comelit_man.Protocol.Ctpp.{separator}
use comelit_man.Protocol.Call.{encode_call_response_ack}
use comelit_man.Protocol.Call.Laws.{call_addresses-ok}
use comelit_man.Vip.Message.{Message, parse_ctpp_message}
use comelit_man.Vip.Timestamp.{transform_device_ts}
use comelit_man.Vip.Listener.{
  Listener, prefix_vip_event, prefix_call_init, action_door_opened, action_registration_renewal,
  send_event_ack, count, repeated, solo, resolve_ack_addresses, send_renewal_ack, fire_event,
  caller_for, handle_vip_event, process_parsed, process_message, ring, door_opened, send,
  inbound_ring,
}

abbrev pub ack_bytes : Text → Text → ℕ → ℕ → Bytes
ack_bytes caller callee ts prefix =
    le16 prefix
    ++ (le32 ts
        ++ (be16 0x0000 ++ (separator ++ ((caller ++ 0x00 ∷ []) ++ (callee ++ 0x00 ∷ 0x00 ∷ [])))))

encode_call_response_ack-ok :
    (caller callee : Text) (ts prefix : ℕ)
    → IsAscii caller
    → IsAscii callee
    → ts < 2 ^ 32
    → prefix < 2 ^ 16
    → encode_call_response_ack caller callee ts prefix ≡ ok (ack_bytes caller callee ts prefix)
unfolding encode_call_response_ack
encode_call_response_ack-ok caller callee ts prefix hc hd ht hp =
    rw (pack_le16-ok prefix hp, pack_le32-ok ts ht, call_addresses-ok caller callee hc hd)

process_message-parsed :
    (order : List Text → List Text) (l : Listener) (now : ℕ) (d : Bytes) {msg : Message}
    → parse_ctpp_message d ≡ some msg
    → process_message order l now d ≡ process_parsed order l now msg
unfolding process_message
process_message-parsed order l now d parsed = rw (parsed, process_message)

-- A renewal message, whatever its timestamp, is answered by exactly two packets, the ACK and the
-- confirmation, from and to the addresses that it is resolved to, where these are ASCII; both
-- carry the listener's own counter, which has to fit in 32 bits. Nothing is fired.
pub process_message-renewal :
    (order : List Text → List Text) (l : Listener) (now : ℕ) (d : Bytes) {msg : Message}
    {caller callee : Text}
    → parse_ctpp_message d ≡ some msg
    → msg.prefix ≡ prefix_vip_event
    → msg.action ≡ action_registration_renewal
    → resolve_ack_addresses order l msg.addresses ≡ (caller, callee)
    → IsAscii caller
    → IsAscii callee
    → l.ack_ts < 2 ^ 32
    → process_message order l now d ≡ (
      l,
      send (ack_bytes caller callee l.ack_ts 0x1800)
          ∷ send (ack_bytes caller callee l.ack_ts 0x1820)
          ∷ [],
    )
unfolding process_parsed send_renewal_ack
process_message-renewal order l now d {msg} {caller} {callee} parsed hp ha resolved hc hd ht =
    process_message-parsed order l now d parsed
    ∙ rw (
      hp,
      ha,
      resolved,
      encode_call_response_ack-ok caller callee l.ack_ts 0x1800 hc hd ht (omega arith),
      encode_call_response_ack-ok caller callee l.ack_ts 0x1820 hc hd ht (omega arith),
    )

-- A call from the device, where the coordinator answers calls, sends nothing and is handed to it
-- once with the caller and the device's timestamp; otherwise it is acknowledged by one packet
-- with the transformed timestamp, before the ring event, which only a recent ring suppresses. The
-- configured addresses have to be ASCII, and the transformed timestamp has to fit in 32 bits.
pub process_message-call_init :
    (order : List Text → List Text) (l : Listener) (now : ℕ) (d : Bytes) {msg : Message}
    → parse_ctpp_message d ≡ some msg
    → msg.prefix ≡ prefix_call_init
    → IsAscii (l.apt_address ++ l.apt_subaddress)
    → IsAscii l.apt_address
    → transform_device_ts msg.timestamp < 2 ^ 32
    → process_message order l now d ≡ (
        if l.on_inbound_ring then (l, inbound_ring (caller_for l msg) msg.timestamp ∷ []) else (
          (fire_event l now ring msg.addresses).0,
          send (
                ack_bytes
                  (l.apt_address ++ l.apt_subaddress)
                  l.apt_address
                  (transform_device_ts msg.timestamp)
                  0x1800)
              ∷ (fire_event l now ring msg.addresses).1,
        ))
unfolding process_parsed handle_vip_event send_event_ack
process_message-call_init order l now d {msg} parsed hp hc hd ht =
    process_message-parsed order l now d parsed ∙ (elim (Bool-cases l.on_inbound_ring) [
      | inl answers ↦ rw (hp, answers) refl
      | inr quiet ↦
          rw
            (
              hp,
              quiet,
              encode_call_response_ack-ok (l.apt_address ++ l.apt_subaddress) l.apt_address
                  (transform_device_ts msg.timestamp) 0x1800 hc hd ht (omega arith),
            )
            refl
    ])

-- The device's message that the door was opened is not acknowledged: it does what firing the
-- event does, and nothing else.
pub process_message-door_opened :
    (order : List Text → List Text) (l : Listener) (now : ℕ) (d : Bytes) {msg : Message}
    → parse_ctpp_message d ≡ some msg
    → msg.prefix ≡ prefix_vip_event
    → msg.action ≡ action_door_opened
    → process_message order l now d ≡ fire_event l now door_opened msg.addresses
unfolding process_parsed handle_vip_event
process_message-door_opened order l now d parsed hp ha =
    process_message-parsed order l now d parsed ∙ rw (hp, ha)

not_one : (n : ℕ) → 2 ≤ n → (n == 1) ≡ false
not_one n h = ground arith

-- Where a renewal names two addresses, one of them at least twice and the other once, the ACK
-- goes from the repeated one to the other, whichever order the set of them is enumerated in.
pub resolve_ack_addresses-pair :
    (order : List Text → List Text) (l : Listener) (addresses : List Text) (full base : Text)
    → 2 ≤ length addresses
    → (order addresses ≡ full ∷ base ∷ []) ⊎ (order addresses ≡ base ∷ full ∷ [])
    → 2 ≤ count full addresses
    → count base addresses ≡ 1
    → resolve_ack_addresses order l addresses ≡ (full, base)
unfolding resolve_ack_addresses repeated solo
resolve_ack_addresses-pair order l addresses full base two (inl e) h k = rw (
  le→leb 2 (length addresses) two,
  e,
  k,
  le→leb 2 (count full addresses) h,
  not_one (count full addresses) h,
)
resolve_ack_addresses-pair order l addresses full base two (inr e) h k =
    rw (le→leb 2 (length addresses) two, e, k, le→leb 2 (count full addresses) h)
