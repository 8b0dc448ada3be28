-- ===== src/Push.antt =====
-- custom_components/comelit_man/auth.py and push.py: the requests on the UAUT and PUSH channels. What
-- comes of opening a channel and of a request on it is a parameter.
use comelit_man.Prelude.{
  Text, ℕ, Bool, false, ◌||◌, Option, none, some, List, [], ◌∷◌, ◌==◌, if◌then◌else◌, Result, ◌>>=◌,
  auth_error, runtime_error, err, ok,
}
use comelit_man.Dict.{lookup}
use comelit_man.Client.{Channel}
use comelit_man.Bytes.{same_bytes}

-- A value of a JSON object, as far as the code tells them apart.
pub data Value : Type 0 where
  text : Text → Value
  number : ℕ → Value
  other : Value

abbrev pub Object : Type 0
Object = List (Text × Value)

-- `open_channel` and `send_json` of the client.
pub record Bridge : Type 0 where
  pub open_channel : Text → ℕ → Result Channel
  pub send_json : Channel → Object → Result Object

abbrev pub uaut_name : Text
uaut_name = b'U' ∷ b'A' ∷ b'U' ∷ b'T' ∷ []

abbrev pub push_name : Text
push_name = b'P' ∷ b'U' ∷ b'S' ∷ b'H' ∷ []

abbrev pub message_key : Text
message_key = b'm' ∷ b'e' ∷ b's' ∷ b's' ∷ b'a' ∷ b'g' ∷ b'e' ∷ []

abbrev pub access : Text
access = b'a' ∷ b'c' ∷ b'c' ∷ b'e' ∷ b's' ∷ b's' ∷ []

abbrev pub user_token_key : Text
user_token_key = b'u' ∷ b's' ∷ b'e' ∷ b'r' ∷ b'-' ∷ b't' ∷ b'o' ∷ b'k' ∷ b'e' ∷ b'n' ∷ []

abbrev pub message_type_key : Text
message_type_key =
    b'm' ∷ b'e' ∷ b's' ∷ b's' ∷ b'a' ∷ b'g' ∷ b'e' ∷ b'-' ∷ b't' ∷ b'y' ∷ b'p' ∷ b'e' ∷ []

abbrev pub request_word : Text
request_word = b'r' ∷ b'e' ∷ b'q' ∷ b'u' ∷ b'e' ∷ b's' ∷ b't' ∷ []

abbrev pub message_id_key : Text
message_id_key = b'm' ∷ b'e' ∷ b's' ∷ b's' ∷ b'a' ∷ b'g' ∷ b'e' ∷ b'-' ∷ b'i' ∷ b'd' ∷ []

abbrev pub response_code_key : Text
response_code_key =
    b'r' ∷ b'e' ∷ b's' ∷ b'p' ∷ b'o' ∷ b'n' ∷ b's' ∷ b'e' ∷ b'-' ∷ b'c' ∷ b'o' ∷ b'd' ∷ b'e' ∷ []

abbrev pub apt_address_key : Text
apt_address_key = b'a' ∷ b'p' ∷ b't' ∷ b'-' ∷ b'a' ∷ b'd' ∷ b'd' ∷ b'r' ∷ b'e' ∷ b's' ∷ b's' ∷ []

abbrev pub apt_subaddress_key : Text
apt_subaddress_key =
    b'a' ∷ b'p' ∷ b't' ∷ b'-' ∷ b's' ∷ b'u' ∷ b'b' ∷ b'a' ∷ b'd' ∷ b'd' ∷ b'r' ∷ b'e' ∷ b's' ∷ b's'
    ∷ []

abbrev pub bundle_id_key : Text
bundle_id_key = b'b' ∷ b'u' ∷ b'n' ∷ b'd' ∷ b'l' ∷ b'e' ∷ b'-' ∷ b'i' ∷ b'd' ∷ []

abbrev pub bundle_id : Text
bundle_id =
    b'c' ∷ b'o' ∷ b'm' ∷ b'.' ∷ b'c' ∷ b'o' ∷ b'm' ∷ b'e' ∷ b'l' ∷ b'i' ∷ b't' ∷ b'g' ∷ b'r' ∷ b'o'
    ∷ b'u' ∷ b'p' ∷ b'.' ∷ b'f' ∷ b'r' ∷ b'i' ∷ b'e' ∷ b'n' ∷ b'd' ∷ b'h' ∷ b'o' ∷ b'm' ∷ b'e' ∷ []

abbrev pub push_info : Text
push_info = b'p' ∷ b'u' ∷ b's' ∷ b'h' ∷ b'-' ∷ b'i' ∷ b'n' ∷ b'f' ∷ b'o' ∷ []

abbrev pub os_type_key : Text
os_type_key = b'o' ∷ b's' ∷ b'-' ∷ b't' ∷ b'y' ∷ b'p' ∷ b'e' ∷ []

abbrev pub ios : Text
ios = b'i' ∷ b'o' ∷ b's' ∷ []

abbrev pub profile_id_key : Text
profile_id_key = b'p' ∷ b'r' ∷ b'o' ∷ b'f' ∷ b'i' ∷ b'l' ∷ b'e' ∷ b'-' ∷ b'i' ∷ b'd' ∷ []

abbrev pub profile_id : Text
profile_id = b'3' ∷ []

abbrev pub device_token_key : Text
device_token_key =
    b'd' ∷ b'e' ∷ b'v' ∷ b'i' ∷ b'c' ∷ b'e' ∷ b'-' ∷ b't' ∷ b'o' ∷ b'k' ∷ b'e' ∷ b'n' ∷ []

abbrev pub device_token : Text
device_token =
    b'c' ∷ b'o' ∷ b'm' ∷ b'e' ∷ b'l' ∷ b'i' ∷ b't' ∷ b'-' ∷ b'l' ∷ b'o' ∷ b'c' ∷ b'a' ∷ b'l' ∷ b'-'
    ∷ b'h' ∷ b'a' ∷ b'-' ∷ b'i' ∷ b'n' ∷ b't' ∷ b'e' ∷ b'g' ∷ b'r' ∷ b'a' ∷ b't' ∷ b'i' ∷ b'o'
    ∷ b'n' ∷ []

abbrev pub incoming_call : Text
incoming_call =
    b'i' ∷ b'n' ∷ b'c' ∷ b'o' ∷ b'm' ∷ b'i' ∷ b'n' ∷ b'g' ∷ b'-' ∷ b'c' ∷ b'a' ∷ b'l' ∷ b'l' ∷ []

abbrev pub push_incoming_call : Text
push_incoming_call =
    b'p' ∷ b'u' ∷ b's' ∷ b'h' ∷ b'-' ∷ b'i' ∷ b'n' ∷ b'c' ∷ b'o' ∷ b'm' ∷ b'i' ∷ b'n' ∷ b'g' ∷ b'-'
    ∷ b'c' ∷ b'a' ∷ b'l' ∷ b'l' ∷ []

abbrev pub missed_call : Text
missed_call = b'm' ∷ b'i' ∷ b's' ∷ b's' ∷ b'e' ∷ b'd' ∷ b'-' ∷ b'c' ∷ b'a' ∷ b'l' ∷ b'l' ∷ []

abbrev pub push_missed_call : Text
push_missed_call =
    b'p' ∷ b'u' ∷ b's' ∷ b'h' ∷ b'-' ∷ b'm' ∷ b'i' ∷ b's' ∷ b's' ∷ b'e' ∷ b'd' ∷ b'-' ∷ b'c' ∷ b'a'
    ∷ b'l' ∷ b'l' ∷ []

abbrev pub access_message : Text → Object
access_message token =
    (message_key, text access)
    ∷ (user_token_key, text token)
    ∷ (message_type_key, text request_word)
    ∷ (message_id_key, number 2)
    ∷ []

abbrev pub accepted : Option Value → Result (Unit {0})
accepted (some (number code)) = if code == 200 then ok tt else err auth_error
accepted (some (text t)) = err auth_error
accepted (some other) = err auth_error
accepted none = err auth_error

-- `authenticate`
unfoldable pub authenticate : Bridge → Text → Result (Unit {0})
unfolding lookup
authenticate bridge token = do
  channel ← bridge.open_channel uaut_name 7
  response ← bridge.send_json channel (access_message token)
  accepted (lookup response_code_key response)

abbrev pub push_message : Text → ℕ → Object
push_message apt_address apt_subaddress =
    (apt_address_key, text apt_address)
    ∷ (apt_subaddress_key, number apt_subaddress)
    ∷ (bundle_id_key, text bundle_id)
    ∷ (message_key, text push_info)
    ∷ (message_id_key, number 2)
    ∷ (os_type_key, text ios)
    ∷ (profile_id_key, text profile_id)
    ∷ (device_token_key, text device_token)
    ∷ (message_type_key, text request_word)
    ∷ []

-- `register_push`, up to setting the callback.
unfoldable pub register_push : Bridge → Text → ℕ → Result (Unit {0})
register_push bridge apt_address apt_subaddress = do
  channel ← bridge.open_channel push_name 2
  response ← bridge.send_json channel (push_message apt_address apt_subaddress)
  ok tt

unfoldable pub send_push_keepalive : Bridge → Option Channel → Text → ℕ → Result (Unit {0})
send_push_keepalive bridge none apt_address apt_subaddress = err runtime_error
send_push_keepalive bridge (some channel) apt_address apt_subaddress = do
  response ← bridge.send_json channel (push_message apt_address apt_subaddress)
  ok tt

pub data PushType : Type 0 where
  ring_event missed_call_event : PushType

-- `PushEvent`, without the raw object.
pub record PushEvent : Type 0 where
  pub event_type : PushType
  pub apt_address : Value
  pub timestamp : ℕ

abbrev pub value_or : Value → Option Value → Value
value_or d none = d
value_or d (some v) = v

abbrev pub is_text : Text → Value → Bool
is_text t (text u) = same_bytes u t
is_text t (number n) = false
is_text t other = false

unfoldable pub parse_push_event : ℕ → Object → Option PushEvent
unfolding lookup same_bytes
parse_push_event now raw =
    let kind = value_or (text []) (lookup message_key raw) in
    let address = value_or (text []) (lookup apt_address_key raw) in
    if is_text incoming_call kind || is_text push_incoming_call kind
    then some (record { event_type = ring_event; apt_address = address; timestamp = now })
    else if is_text missed_call kind || is_text push_missed_call kind
    then some (record { event_type = missed_call_event; apt_address = address; timestamp = now })
    else none
