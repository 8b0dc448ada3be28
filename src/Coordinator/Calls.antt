-- ===== src/Coordinator/Calls.antt =====
-- The calls that reach the coordinator during or after a session: its end, the answer, a door.
use comelit_man.Coordinator.Video.{begin_stop, start_video}
use comelit_man.Coordinator.State.{
  CallConfig, Live, Coordinator, note, spawn, in_client, with_call_client, raised_to_caller,
  door_requested, return_stopped, auto_restart, answering,
}
use comelit_man.VideoCall.Start.{open_door_on_ctpp}
use comelit_man.VideoCall.State.{Session, text_or}
use comelit_man.Prelude.{
  runtime_error, decimal, ℕ, true, false, Option, none, some, List, ◌++◌, ◌==◌, if◌then◌else◌,
  Result, err, ok,
}
use comelit_man.Client.{Client}
use comelit_man.VideoCall.Codec.{Peers}
use comelit_man.Bytes.{Bytes}
use comelit_man.VideoCall.Answer.{answer_inbound}

-- `_auto_restart_video`: without viewers the session ends.
unfoldable pub auto_restart_video : ℕ → Coordinator → Coordinator
auto_restart_video client_count c =
    if client_count == 0 then begin_stop return_stopped c else start_video false c

-- `_on_video_call_end`
unfoldable pub on_video_call_end : Coordinator → Coordinator
on_video_call_end c = if c.stopped_by_user then c else spawn auto_restart c

-- `request_video_stop`
unfoldable pub request_video_stop : Coordinator → Coordinator
request_video_stop c = record c { stopped_by_user = true }

abbrev pub entrance_of : CallConfig → Peers
entrance_of config =
    let our = config.apt_address ++ decimal config.apt_subaddress in
    record { ours = our; theirs = text_or config.caller_address our }

abbrev pub raise_if : Result (Unit {0}) → Coordinator → Coordinator
raise_if (ok x) c = c
raise_if (err e) c = note (raised_to_caller e) c

abbrev pub with_call : Live → Session → Coordinator → Coordinator
with_call live s c =
    with_call_client live s (record c { session = some (record live { call = s }) })

abbrev pub door_result : Live → Coordinator → Session × Result (Unit {0}) → Coordinator
door_result live c (s, result) = raise_if result (with_call live s c)

abbrev pub door_on : CallConfig → ℕ → Option Live → Coordinator → Coordinator
door_on config relay none c = note (door_requested relay) c
door_on config relay (some live) c =
    if live.call.active
    then door_result live c
        (open_door_on_ctpp (entrance_of config) relay (in_client c.client live.call))
    else note (door_requested relay) c

abbrev pub door_with : Option CallConfig → Option Client → ℕ → Coordinator → Coordinator
door_with none client relay c = note (raised_to_caller runtime_error) c
door_with (some config) none relay c = note (raised_to_caller runtime_error) c
door_with (some config) (some client) relay c = door_on config relay c.session c

-- `async_open_door`: in a call on its channel, otherwise by `open_door`.
unfoldable pub async_open_door : ℕ → Coordinator → Coordinator
async_open_door relay c = door_with c.config c.client relay c

abbrev pub answer_result : Live → Coordinator → Session × Result (Unit {0}) → Coordinator
answer_result live c (s, ok x) = spawn answering (with_call live s c)
answer_result live c (s, err e) = note (raised_to_caller e) (with_call live s c)

abbrev pub answer_found : List Bytes → Option Live → Coordinator → Coordinator
answer_found handed none c = c
answer_found handed (some live) c =
    if live.call.active
    then answer_result live c (answer_inbound handed (in_client c.client live.call))
    else c

-- `async_answer_inbound` up to its await of the session's answer.
unfoldable pub begin_answer : List Bytes → Coordinator → Coordinator
begin_answer handed c = answer_found handed c.session c

-- The answer is known only when the session's coroutine has returned.
unfoldable pub finish_answer : Coordinator → Coordinator
finish_answer c = record c { answered = true; pending = none }
