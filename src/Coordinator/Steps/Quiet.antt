-- ===== src/Coordinator/Steps/Quiet.antt =====
-- The parts of a step that touch neither the tasks, nor the rings, nor the lock.
use comelit_man.Coordinator.State.{
  CallConfig, Live, Coordinator, note, is_some, server_down, in_client, with_call_client,
  session_stopped,
}
use comelit_man.Prelude.{
  Text, ℕ, ◌+◌, ◌≡◌, refl, ◌∙◌, Bool, true, false, not, ◌&&◌, ◌||◌, Option, none, some, List, ◌==◌,
  if◌then◌else◌, Result, err, ok,
}
use comelit_man.Coordinator.Connection.{
  listener_if, listener_on, ensure_vip_listener, session_dropped, drop_connection, listening, adopt,
  finish_update,
}
use comelit_man.VideoCall.State.{Session, ts}
use comelit_man.Client.{Channel, Client, get_channel}
use comelit_man.Coordinator.Video.{missed_if}
use comelit_man.Coordinator.Calls.{
  entrance_of, with_call, door_result, door_on, door_with, async_open_door,
}
use comelit_man.VideoCall.Names.{ctpp_name}
use comelit_man.Coordinator.Rings.{is_recent, on_call_idle}
use comelit_man.VideoCall.Start.{open_door_on_ctpp}

pub record IsQuiet (c d : Coordinator) : Type 0 where
  pub tasks : d.tasks ≡ c.tasks
  pub rings : d.recent_rings ≡ c.recent_rings
  pub lock : d.start_locked ≡ c.start_locked

pub quiet :
    {c d : Coordinator}
    → d.tasks ≡ c.tasks
    → d.recent_rings ≡ c.recent_rings
    → d.start_locked ≡ c.start_locked
    → IsQuiet c d
quiet t r l = record { tasks = t; rings = r; lock = l }

pub IsQuiet-trans : {c d e : Coordinator} → IsQuiet c d → IsQuiet d e → IsQuiet c e
IsQuiet-trans x y = record {
  tasks = y.tasks ∙ x.tasks;
  rings = y.rings ∙ x.rings;
  lock = y.lock ∙ x.lock;
}

pub if_IsQuiet :
    {c d e : Coordinator} (b : Bool) → IsQuiet c d → IsQuiet c e → IsQuiet c (if b then d else e)
if_IsQuiet true x y = x
if_IsQuiet false x y = y

pub missed_if-IsQuiet : (p : Option Text) (c : Coordinator) → IsQuiet c (missed_if p c)
missed_if-IsQuiet none c = quiet refl refl refl
missed_if-IsQuiet (some caller) c =
    if_IsQuiet c.answered (quiet refl refl refl) (quiet refl refl refl)

listener_on-IsQuiet :
    (config : Option CallConfig) (client : Option Client) (c : Coordinator)
    → IsQuiet c (listener_on config client c)
listener_on-IsQuiet none client c = quiet refl refl refl
listener_on-IsQuiet (some config) none c = quiet refl refl refl
listener_on-IsQuiet (some config) (some client) c = found (get_channel client ctpp_name)
  where
    found : (ch : Option Channel) → IsQuiet c (listener_if ch c)
    found none = quiet refl refl refl
    found (some ctpp) = quiet refl refl refl

pub ensure_vip_listener-IsQuiet : (c : Coordinator) → IsQuiet c (ensure_vip_listener c)
unfolding ensure_vip_listener
ensure_vip_listener-IsQuiet c =
    if_IsQuiet (c.has_listener || not c.notifications) (quiet refl refl refl)
      (listener_on-IsQuiet c.config c.client c)

pub server_down-IsQuiet : (c : Coordinator) → IsQuiet c (server_down c)
server_down-IsQuiet c = if_IsQuiet c.has_server (quiet refl refl refl) (quiet refl refl refl)

pub with_call_client-IsQuiet :
    (live : Live) (s : Session) (c : Coordinator) → IsQuiet c (with_call_client live s c)
with_call_client-IsQuiet live s c =
    if_IsQuiet (is_some c.client && live.connection == c.connection) (quiet refl refl refl)
      (quiet refl refl refl)

session_dropped-IsQuiet : (l : Option Live) (c : Coordinator) → IsQuiet c (session_dropped l c)
session_dropped-IsQuiet none c = quiet refl refl refl
session_dropped-IsQuiet (some s) c =
    IsQuiet-trans (quiet refl refl refl) (
      server_down-IsQuiet (note session_stopped (record c { session = none; video_ready = false })))

pub drop_connection-IsQuiet : (c : Coordinator) → IsQuiet c (drop_connection c)
unfolding drop_connection
drop_connection-IsQuiet c =
    IsQuiet-trans (session_dropped-IsQuiet c.session c) (quiet refl refl refl)

listening-IsQuiet :
    (ch : Option Channel) (init_ts : ℕ) (c : Coordinator) → IsQuiet c (listening ch init_ts c)
listening-IsQuiet none init_ts c = quiet refl refl refl
listening-IsQuiet (some ctpp) init_ts c = quiet refl refl refl

pub adopt-IsQuiet : (new : Client × ℕ) (c : Coordinator) → IsQuiet c (adopt new c)
unfolding adopt
adopt-IsQuiet (client, ts) c =
    if_IsQuiet c.notifications
      (IsQuiet-trans (quiet refl refl refl) (
        listening-IsQuiet (get_channel client ctpp_name) ts (record c {
          client = some client;
          connection = c.connection + 1;
          connection_lost = false;
        })))
      (quiet refl refl refl)

pub finish_update-IsQuiet :
    (r : Result (Client × ℕ)) (c : Coordinator) → IsQuiet c (finish_update r c)
unfolding finish_update
finish_update-IsQuiet (ok new) c = adopt-IsQuiet new c
finish_update-IsQuiet (err e) c = quiet refl refl refl

pub with_call-IsQuiet : (l : Live) (s : Session) (c : Coordinator) → IsQuiet c (with_call l s c)
with_call-IsQuiet l s c =
    IsQuiet-trans (quiet refl refl refl)
      (with_call_client-IsQuiet l s (record c { session = some (record l { call = s }) }))

door_result-IsQuiet :
    (l : Live) (c : Coordinator) (x : Session × Result (Unit {0})) → IsQuiet c (door_result l c x)
door_result-IsQuiet l c (s, ok x) = with_call-IsQuiet l s c
door_result-IsQuiet l c (s, err e) = IsQuiet-trans (with_call-IsQuiet l s c) (quiet refl refl refl)

door_on-IsQuiet :
    (config : CallConfig) (relay : ℕ) (l : Option Live) (c : Coordinator)
    → IsQuiet c (door_on config relay l c)
door_on-IsQuiet config relay none c = quiet refl refl refl
door_on-IsQuiet config relay (some live) c =
    if_IsQuiet live.call.active
      (door_result-IsQuiet live c
        (open_door_on_ctpp (entrance_of config) relay (in_client c.client live.call)))
      (quiet refl refl refl)

door_with-IsQuiet :
    (config : Option CallConfig) (client : Option Client) (relay : ℕ) (c : Coordinator)
    → IsQuiet c (door_with config client relay c)
door_with-IsQuiet none client relay c = quiet refl refl refl
door_with-IsQuiet (some config) none relay c = quiet refl refl refl
door_with-IsQuiet (some config) (some client) relay c = door_on-IsQuiet config relay c.session c

pub async_open_door-IsQuiet : (relay : ℕ) (c : Coordinator) → IsQuiet c (async_open_door relay c)
unfolding async_open_door
async_open_door-IsQuiet relay c = door_with-IsQuiet c.config c.client relay c

pub on_call_idle-IsQuiet :
    (now : ℕ) (addrs : List Text) (c : Coordinator) → IsQuiet c (on_call_idle now addrs c)
unfolding on_call_idle
on_call_idle-IsQuiet now addrs c =
    if_IsQuiet (is_some c.session || c.answered) (quiet refl refl refl)
      (if_IsQuiet (is_recent now c.last_ring) (quiet refl refl refl) (quiet refl refl refl))
