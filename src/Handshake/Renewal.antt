-- ===== src/Handshake/Renewal.antt =====
-- The handshake and the listener agree on the ACK pair.
use comelit_man.Prelude.{
  Text, ℕ, ◌+◌, ◌%◌, ◌^◌, ◌≡◌, Bool, some, List, [], ◌∷◌, ◌++◌, map, arith, >>=-eq-ok, ok,
}
use comelit_man.Bytes.{Bytes}
use comelit_man.Protocol.Call.{encode_call_response_ack}
use comelit_man.Vip.Message.{Message}
use comelit_man.Vip.Listener.{new_listener, resolve_ack_addresses, send_renewal_ack, send}
use comelit_man.Handshake.{renewal_ack_increment, ack_pair}

ack_pair_inversion :
    (our_addr apt_addr : Text) (ts : ℕ) {acks : List Bytes}
    → ack_pair our_addr apt_addr (some ts) ≡ ok acks
    → (a : Bytes) × (encode_call_response_ack our_addr apt_addr
          ((ts + renewal_ack_increment) % 2 ^ 32)
          0x1800
        ≡ ok a)
      × ((b : Bytes) × (encode_call_response_ack our_addr apt_addr
              ((ts + renewal_ack_increment) % 2 ^ 32)
              0x1820
            ≡ ok b)
          × (ok (a ∷ b ∷ []) ≡ ok acks))
unfolding ack_pair
ack_pair_inversion our_addr apt_addr ts e =
    let (a, first, e') = >>=-eq-ok _ _ e in
    let (b, second, e'') = >>=-eq-ok _ _ e' in (a, first, (b, second, e''))

-- A listener that is created with the timestamp of the handshake answers every renewal for which it
-- resolves the addresses of the handshake, whether the message names them or the configuration
-- gives them, with the handshake's own ACK pair, byte for byte.
pub send_renewal_ack-ack_pair :
    (order : List Text → List Text) (apt sub : Text) (ts : ℕ) (on_ring on_idle : Bool)
    (msg : Message) {acks : List Bytes}
    → resolve_ack_addresses order (new_listener apt sub ts on_ring on_idle) msg.addresses
      ≡ (apt ++ sub, apt)
    → ack_pair (apt ++ sub) apt (some ts) ≡ ok acks
    → send_renewal_ack order (new_listener apt sub ts on_ring on_idle) msg ≡ map send acks
unfolding send_renewal_ack new_listener
send_renewal_ack-ack_pair order apt sub ts on_ring on_idle msg resolved e =
    let (a, first, (b, second, pair)) = ack_pair_inversion (apt ++ sub) apt ts e in
    rw (resolved, first, second) (ground arith)
