-- ===== src/Coordinator/State.antt =====
-- The state of `ComelitLocalCoordinator`, with its suspended coroutines as tasks.
use comelit_man.VideoCall.State.{Device, Session}
use comelit_man.Prelude.{
  Text, ℕ, Bool, true, false, ◌&&◌, Option, none, some, List, [], ◌∷◌, ◌++◌, ◌==◌, if◌then◌else◌,
  PyError, Result,
}
use comelit_man.Bytes.{Bytes}
use comelit_man.Client.{Client}

-- `RING_DEDUP_WINDOW` and `MISSED_CALL_WINDOW`, in microseconds.
abbrev pub ring_dedup_window : ℕ
ring_dedup_window = 120000000

abbrev pub missed_call_window : ℕ
missed_call_window = 45000000

-- The fields of the device's configuration that calls use.
pub record CallConfig : Type 0 where
  pub apt_address : Text
  pub apt_subaddress : ℕ
  pub caller_address : Text

-- An entry of `_recent_rings`: the key's two parts and the time.
pub record Seen : Type 0 where
  pub entrance : Text
  pub ring_ts : ℕ
  pub seen : ℕ

pub data CallEvent : Type 0 where
  ring missed_call : CallEvent

-- What others see of the coordinator, in order: a push event with its caller; the RTSP server made
-- ready, or not ready with its clients disconnected; the stop callbacks and the state callbacks;
-- the session stopped; an exception for the caller; the issue for a failed authentication, and another
-- failed update; a door handed to `open_door`.
pub data Note : Type 0 where
  push_event : CallEvent → Text → Note
  marked_ready marked_not_ready clients_disconnected : Note
  stop_callbacks state_changed session_stopped : Note
  raised_to_caller : PyError → Note
  auth_issue update_failed : Note
  door_requested : ℕ → Note

-- What a coroutine does once `async_stop_video` has returned to it.
pub data After : Type 0 where
  return_stopped : After
  start_outbound : After
  start_passive : Text → ℕ → After

-- A session with the number of the connection on which it was made.
pub record Live : Type 0 where
  pub call : Session
  pub connection : ℕ

-- A coroutine that is scheduled, or suspended at one of its awaits: of a ring's video, of a
-- restart, of the session's stop, of the state callbacks behind it, of the listener's stop, of the session's start, of the state callbacks
-- behind it, of the first frame, of the answer, and of the new connections of a start and of an update.
pub data Task : Type 0 where
  inbound_video : Text → ℕ → Task
  auto_restart : Task
  stopping : Live → After → Task
  settling : After → Task
  pausing : After → Task
  starting : After → Task
  publishing : After → Task
  awaiting_frame : Text → Task
  answering : Task
  reconnecting refresh refreshing : Task

-- What the surroundings answer when a task goes on: the device's script and the clock of a new
-- session, whether the session's receiver is there, the decoder's latest frame and the frame it delivers in time, the number of RTSP
-- clients, and the client of a new connection with the timestamp of its CTPP init, or the exception.
pub record Reply : Type 0 where
  pub device : Device
  pub receiver_there : Bool
  pub latest_frame : Option Bytes
  pub jpeg : Option Bytes
  pub client_count : ℕ
  pub connected : Result (Client × ℕ)

pub record Coordinator : Type 0 where
  pub config : Option CallConfig
  pub client : Option Client
  pub connection : ℕ
  pub notifications : Bool
  pub has_server : Bool
  pub session : Option Live
  pub stopped_by_user : Bool
  pub start_locked : Bool
  pub video_ready : Bool
  pub has_listener : Bool
  pub ctpp_init_ts : ℕ
  pub connection_lost : Bool
  pub snapshot : Option Bytes
  pub recent_rings : List Seen
  pub last_ring : Option ℕ
  pub answered : Bool
  pub pending : Option Text
  pub tasks : List Task
  pub notes : List Note

abbrev pub note : Note → Coordinator → Coordinator
note n c = record c { notes = c.notes ++ n ∷ [] }

-- `_on_push_event`
abbrev pub fire : CallEvent → Text → Coordinator → Coordinator
fire e caller c = note (push_event e caller) c

abbrev pub spawn : Task → Coordinator → Coordinator
spawn t c = record c { tasks = c.tasks ++ t ∷ [] }

abbrev pub is_some {ℓ} : {A : Type ℓ} → Option A → Bool
is_some none = false
is_some (some a) = true

abbrev pub server_down : Coordinator → Coordinator
server_down c = if c.has_server then note clients_disconnected (note marked_not_ready c) else c

abbrev pub in_client : Option Client → Session → Session
in_client none s = s
in_client (some client) s = record s { client = client }

-- The client's registry after a session's step, if the connection is still the session's.
abbrev pub with_call_client : Live → Session → Coordinator → Coordinator
with_call_client live s c =
    if is_some c.client && live.connection == c.connection
    then record c { client = some s.client }
    else c

abbrev pub release : Coordinator → Coordinator
release c = record c { start_locked = false }
