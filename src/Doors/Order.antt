-- ===== src/Doors/Order.antt =====
-- The order of a door's messages, also when one of them cannot be sent.
use comelit_man.VideoCall.Talk.{Talk}
use comelit_man.Prelude.{
  Text, ◌≡◌, Bool, true, false, List, [], ◌∷◌, ◌++◌, PyError, Result, err, ok,
}
use comelit_man.Bytes.{Bytes}
use comelit_man.Client
use comelit_man.Client.{Channel, Client, send_binary}
use comelit_man.Config.{Door}
use comelit_man.VideoCall.State.{Out, Session, payload}
use comelit_man.Protocol.Ctpp.{
  encode_open_door, encode_door_init, encode_actuator_init, encode_actuator_open,
}
use comelit_man.Protocol.Channel.{open_door, open_door_confirm}

abbrev pub pair : Text → Door → List (Result Bytes)
pair apt_addr door =
    encode_open_door open_door apt_addr door.output_index door.apt_address
    ∷ encode_open_door open_door_confirm apt_addr door.output_index door.apt_address
    ∷ []

-- The messages of a door: the pair, the door's init and the pair again; an actuator has its own
-- init and its own pair.
abbrev pub door_messages : Text → Door → Bool → List (Result Bytes)
door_messages apt_addr door true =
    encode_actuator_init apt_addr door.output_index door.apt_address
    ∷ encode_actuator_open apt_addr door.output_index door.apt_address false
    ∷ encode_actuator_open apt_addr door.output_index door.apt_address true
    ∷ []
door_messages apt_addr door false =
    pair apt_addr door
    ++ encode_door_init apt_addr door.output_index door.apt_address ∷ pair apt_addr door

abbrev pub all_ok : List Bytes → List (Result Bytes)
all_ok [] = []
all_ok (b ∷ bs) = ok b ∷ all_ok bs

abbrev pub payloads : List Bytes → List Out
payloads [] = []
payloads (b ∷ bs) = payload b ∷ payloads bs

-- A message cannot be sent: it is not encoded, or the client refuses it.
pub data IsRefused (ctpp : Channel) (d : Result Bytes) (e : PyError) : Type 0 where
  not_encoded : d ≡ err e → IsRefused ctpp d e
  not_sent :
      (b : Bytes) (client : Client.Client)
      → d ≡ ok b
      → Client.send_binary client ctpp b ≡ err e
      → IsRefused ctpp d e

-- A list of messages is sent in its order up to the first that is refused, whose exception is the
-- result; nothing behind that one is sent, and everything before it is.
pub data IsSentUpTo (ctpp : Channel) (messages : List (Result Bytes)) (s : Session)
    (x : Session × Result (Unit {0})) : Type 0 where
  all_sent :
      (sent : List Bytes)
      → messages ≡ all_ok sent
      → x.0.out ≡ s.out ++ payloads sent
      → x.1 ≡ ok tt
      → IsSentUpTo ctpp messages s x
  refused :
      (sent : List Bytes) (d : Result Bytes) (unsent : List (Result Bytes)) (e : PyError)
      → messages ≡ all_ok sent ++ d ∷ unsent
      → x.0.out ≡ s.out ++ payloads sent
      → x.1 ≡ err e
      → IsRefused ctpp d e
      → IsSentUpTo ctpp messages s x

module _ (ctpp : Channel) (apt_addr : Text) (door : Door) where
  abbrev last_pair : Bool → List (Result Bytes)
  last_pair true =
      encode_actuator_open apt_addr door.output_index door.apt_address false
      ∷ encode_actuator_open apt_addr door.output_index door.apt_address true
      ∷ []
  last_pair false = pair apt_addr door

-- How the opening of a door ends: with its messages sent up to the first that is refused, or with
-- the exception of the actuator's init, which is encoded for every door before anything is sent.
pub data IsOpening (ctpp : Channel) (apt_addr : Text) (door : Door) (s : Session)
    (x : Session × Result (Unit {0})) : Type 0 where
  unencodable :
      (e : PyError)
      → encode_actuator_init apt_addr door.output_index door.apt_address ≡ err e
      → x ≡ (s, err e)
      → IsOpening ctpp apt_addr door s x
  messages_sent :
      (b : Bytes)
      → encode_actuator_init apt_addr door.output_index door.apt_address ≡ ok b
      → IsSentUpTo ctpp (door_messages apt_addr door door.is_actuator) s x
      → IsOpening ctpp apt_addr door s x
