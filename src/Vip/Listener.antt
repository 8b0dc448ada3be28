-- ===== src/Vip/Listener.antt =====
-- `VipEventListener`: what a message on the CTPP channel makes the listener send and call.
pub mod Spacing
pub mod Answers
use comelit_man.Prelude.{
  Text, ℕ, suc, ◌+◌, ◌%◌, ◌^◌, Bool, true, false, not, ◌&&◌, ◌||◌, Option, none, some, List, [],
  ◌∷◌, ◌++◌, ltb, leb, ◌==◌, if◌then◌else◌, length, Result, ok, err,
}
use comelit_man.Bytes.{Bytes, same_bytes}
use comelit_man.Protocol.Call.{encode_call_response_ack}
use comelit_man.Vip.Message.{Message, parse_ctpp_message}
use comelit_man.Vip.Timestamp.{transform_device_ts, ctr_incr_both}

pub data EventType : Type 0 where
  ring door_opened : EventType

-- The configuration, the ACK timestamp, which callbacks are set, and the time of the last fired
-- event of each type, in microseconds, 0 for a type that has not been fired.
pub record Listener : Type 0 where
  pub apt_address : Text
  pub apt_subaddress : Text
  pub ack_ts : ℕ
  pub on_inbound_ring : Bool
  pub on_call_idle : Bool
  pub last_fired : EventType → ℕ

-- A packet for the device, the two callbacks of the coordinator, and a `PushEvent` with its type,
-- caller, time and addresses.
pub data Effect : Type 0 where
  send : Bytes → Effect
  inbound_ring : Text → ℕ → Effect
  call_idle : List Text → Effect
  push_event : EventType → Text → ℕ → List Text → Effect

abbrev pub dedup_window : ℕ
dedup_window = 10000000

abbrev pub prefix_video_event : ℕ
prefix_video_event = 0x1840

abbrev pub prefix_vip_event : ℕ
prefix_vip_event = 0x1860

abbrev pub prefix_call_init : ℕ
prefix_call_init = 0x18c0

abbrev pub action_in_alerting : ℕ
action_in_alerting = 0x0001

abbrev pub action_door_opened : ℕ
action_door_opened = 0x0003

abbrev pub action_registration_renewal : ℕ
action_registration_renewal = 0x0010

unfoldable pub new_listener : Text → Text → ℕ → Bool → Bool → Listener
new_listener apt sub init_ts on_ring on_idle = record {
  apt_address = apt;
  apt_subaddress = sub;
  ack_ts = (init_ts + ctr_incr_both) % 2 ^ 32;
  on_inbound_ring = on_ring;
  on_call_idle = on_idle;
  last_fired = λ e. 0;
}

abbrev pub sent : Result Bytes → List Effect
sent (ok b) = send b ∷ []
sent (err e) = []

unfoldable pub send_event_ack : Listener → Message → List Effect
send_event_ack l msg = sent (
    encode_call_response_ack (l.apt_address ++ l.apt_subaddress) l.apt_address
      (transform_device_ts msg.timestamp) 0x1800)

abbrev pub first_text : List Text → Text
first_text [] = []
first_text (a ∷ addrs) = a

abbrev pub last_text : Text → List Text → Text
last_text a [] = a
last_text a (b ∷ bs) = last_text b bs

-- `addresses.count(a)`
unfoldable pub count : Text → List Text → ℕ
count a [] = 0
count a (b ∷ bs) = let rest = count a bs in if same_bytes a b then suc rest else rest

-- `[a for a, n in counts.items() if n >= 2]`
unfoldable pub repeated : List Text → List Text → List Text
repeated addresses [] = []
repeated addresses (a ∷ addrs) =
    let rest = repeated addresses addrs in if leb 2 (count a addresses) then a ∷ rest else rest

unfoldable pub solo : List Text → List Text → List Text
solo addresses [] = []
solo addresses (a ∷ addrs) =
    let rest = solo addresses addrs in if count a addresses == 1 then a ∷ rest else rest

-- `sorted(…, key=len, reverse=True)`, which keeps the order of equal lengths.
unfoldable pub insert_longest : Text → List Text → List Text
insert_longest a [] = a ∷ []
insert_longest a (b ∷ bs) =
    let rest = insert_longest a bs in if leb (length b) (length a) then a ∷ b ∷ bs else b ∷ rest

unfoldable pub longest_first : List Text → List Text
longest_first [] = []
longest_first (a ∷ addrs) = insert_longest a (longest_first addrs)

abbrev pub config_addresses : Listener → Text × Text
config_addresses l = (l.apt_address ++ l.apt_subaddress, l.apt_address)

abbrev pub by_length : Listener → List Text → Text × Text
by_length l (a ∷ b ∷ bs) = (a, last_text b bs)
by_length l [] = config_addresses l
by_length l (a ∷ []) = config_addresses l

abbrev pub by_count : List Text → List Text → Text × Text → Text × Text
by_count (r ∷ rs) (s ∷ ss) other = (r, s)
by_count [] ss other = other
by_count (r ∷ rs) [] other = other

-- `order` enumerates `set(addresses)`, whose order Python does not fix.
unfoldable pub resolve_ack_addresses : (List Text → List Text) → Listener → List Text → Text × Text
resolve_ack_addresses order l addresses =
    if leb 2 (length addresses)
    then by_count (repeated addresses (order addresses)) (solo addresses (order addresses))
        (by_length l (longest_first (order addresses)))
    else config_addresses l

-- The first ACK's failure to encode leaves out the second, which then fails likewise.
unfoldable pub send_renewal_ack : (List Text → List Text) → Listener → Message → List Effect
send_renewal_ack order l msg =
    let (caller, callee) = resolve_ack_addresses order l msg.addresses in
    sent (encode_call_response_ack caller callee l.ack_ts 0x1800)
    ++ sent (encode_call_response_ack caller callee l.ack_ts 0x1820)

abbrev pub same_event : EventType → EventType → Bool
same_event ring ring = true
same_event door_opened door_opened = true
same_event ring door_opened = false
same_event door_opened ring = false

unfoldable pub fire_event : Listener → ℕ → EventType → List Text → Listener × List Effect
fire_event l now event addresses =
    if ltb now (l.last_fired event + dedup_window) then (l, []) else (
      record {
        apt_address = l.apt_address;
        apt_subaddress = l.apt_subaddress;
        ack_ts = l.ack_ts;
        on_inbound_ring = l.on_inbound_ring;
        on_call_idle = l.on_call_idle;
        last_fired = λ e. if same_event e event then now else l.last_fired e;
      },
      push_event event (first_text addresses) now addresses ∷ [],
    )

abbrev pub is_floor : Option Bytes → Bool
is_floor none = false
is_floor (some tag) = same_bytes tag (b'F' ∷ b'F' ∷ [])

unfoldable pub caller_for : Listener → Message → Text
caller_for l msg =
    if is_floor msg.call_tag && ltb 0 (length l.apt_address)
    then l.apt_address
    else first_text msg.addresses

unfoldable pub handle_vip_event : Listener → ℕ → Message → Listener × List Effect
unfolding fire_event
handle_vip_event l now msg =
    if msg.prefix == prefix_call_init
    then (if l.on_inbound_ring
        then (l, inbound_ring (caller_for l msg) msg.timestamp ∷ [])
        else fire_event l now ring msg.addresses)
    else if msg.prefix == prefix_vip_event && not (msg.action == 0)
    then (if msg.action == action_in_alerting
        then fire_event l now ring msg.addresses
        else if msg.action == action_door_opened
        then fire_event l now door_opened msg.addresses
        else (l, []))
    else if msg.prefix == prefix_video_event && msg.action == 0 && l.on_call_idle
    then (l, call_idle msg.addresses ∷ [])
    else (l, [])

abbrev pub is_event : ℕ → Bool
is_event prefix = prefix == prefix_video_event || prefix == prefix_vip_event

abbrev pub is_door_opened : Message → Bool
is_door_opened msg = msg.prefix == prefix_vip_event && msg.action == action_door_opened

unfoldable pub process_parsed :
    (List Text → List Text) → Listener → ℕ → Message → Listener × List Effect
process_parsed order l now msg =
    if msg.prefix == prefix_vip_event && msg.action == action_registration_renewal
    then (l, send_renewal_ack order l msg)
    else let first =
        if msg.prefix == prefix_call_init && not l.on_inbound_ring
        then send_event_ack l msg
        else [] in
      let second =
        if is_event msg.prefix && not (is_door_opened msg) then send_event_ack l msg else [] in
      let (l', effects) =
        if msg.prefix == prefix_call_init || is_event msg.prefix
        then handle_vip_event l now msg
        else (l, []) in
      (l', first ++ (second ++ effects))

-- `_process_message`; the retransmit table serves the log only.
unfoldable pub process_message :
    (List Text → List Text) → Listener → ℕ → Bytes → Listener × List Effect
process_message order l now d = elim (parse_ctpp_message d) [
  | none ↦ (l, [])
  | some msg ↦ process_parsed order l now msg
]

-- `_listen_loop`: the messages of the queue with the time at which each is taken.
unfoldable pub listen_loop :
    (List Text → List Text) → Listener → List (ℕ × Bytes) → Listener × List Effect
listen_loop order l [] = (l, [])
listen_loop order l ((now, d) ∷ rest) =
    let (l', effects) = process_message order l now d in
    let (l'', more) = listen_loop order l' rest in (l'', effects ++ more)
