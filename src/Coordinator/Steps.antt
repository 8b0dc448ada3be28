-- ===== src/Coordinator/Steps.antt =====
-- The coordinator's steps: a call from outside, or a task that goes on, in any order.
pub mod Quiet
pub mod Segments
pub mod Tasks
pub mod Starts
pub mod Lock
pub mod Retransmits
pub mod Passive
use comelit_man.Coordinator.State.{
  Task, Reply, Coordinator, spawn, return_stopped, inbound_video, auto_restart, stopping, settling,
  pausing, starting, publishing, awaiting_frame, answering, reconnecting, refresh, refreshing,
}
use comelit_man.Prelude.{Text, ℕ, ◌≡◌, true, false, Option, none, some, List, ◌∷◌, ◌++◌}
use comelit_man.Coordinator.Rings.{on_inbound_ring, on_ring_during_video, on_call_idle}
use comelit_man.Bytes.{Bytes}
use comelit_man.Coordinator.Video.{
  go_after, begin_stop, finish_stop, start_video, start_reconnected, start_inbound_video,
  ring_ready, go_public, start_call,
}
use comelit_man.Coordinator.Calls.{
  auto_restart_video, on_video_call_end, request_video_stop, async_open_door, begin_answer,
  finish_answer,
}
use comelit_man.Coordinator.Connection.{update_data, finish_update, on_client_disconnect}

-- What may be called, the monotonic clock's time with it.
pub data Event : Type 0 where
  inbound_ring : ℕ → Text → ℕ → Event
  ring_during_video : ℕ → Option Bytes → Text → ℕ → Event
  call_idle : ℕ → List Text → Event
  call_end : Event
  user_start : Event
  user_stop : Event
  stop_requested : Event
  answer_pressed : List Bytes → Event
  door_pressed : ℕ → Event
  disconnected : Event
  update_due : Event

-- The time of a ring.
abbrev pub event_ring : Event → Option ℕ
event_ring (inbound_ring now a ts) = some now
event_ring (ring_during_video now frame a ts) = some now
event_ring (call_idle now addrs) = none
event_ring call_end = none
event_ring user_start = none
event_ring user_stop = none
event_ring stop_requested = none
event_ring (answer_pressed handed) = none
event_ring (door_pressed relay) = none
event_ring disconnected = none
event_ring update_due = none

unfoldable pub handle : Event → Coordinator → Coordinator
handle (inbound_ring now a ts) c = on_inbound_ring now a ts c
handle (ring_during_video now frame a ts) c = on_ring_during_video now frame a ts c
handle (call_idle now addrs) c = on_call_idle now addrs c
handle call_end c = on_video_call_end c
handle user_start c = start_video true c
handle user_stop c = begin_stop return_stopped c
handle stop_requested c = request_video_stop c
handle (answer_pressed handed) c = begin_answer handed c
handle (door_pressed relay) c = async_open_door relay c
handle disconnected c = on_client_disconnect c
handle update_due c = update_data c

-- A task goes on up to its next await.
unfoldable pub resume : Reply → Task → Coordinator → Coordinator
resume r (inbound_video a ts) c = start_inbound_video a ts c
resume r auto_restart c = auto_restart_video r.client_count c
resume r (stopping s k) c = finish_stop s k c
resume r (settling k) c = go_after k c
resume r (pausing k) c = spawn (starting k) (record c { has_listener = false })
resume r (starting k) c = start_call k r c.config c.client c
resume r (publishing k) c = go_public k r c
resume r (awaiting_frame a) c = ring_ready a r.jpeg c
resume r answering c = finish_answer c
resume r reconnecting c = start_reconnected r.connected c
resume r refresh c = update_data c
resume r refreshing c = finish_update r.connected c

-- The states that come after any number of steps, where `P` holds of the calls made.
pub data Run (P : Event → Type 0) (c : Coordinator) : Coordinator → Type 0 where
  at_rest : Run P c c
  called : {d : Coordinator} (e : Event) → P e → Run P c d → Run P c (handle e d)
  resumed :
      {d : Coordinator} (r : Reply) (before : List Task) (t : Task) (after : List Task)
      → d.tasks ≡ before ++ t ∷ after
      → Run P c d
      → Run P c (resume r t (record d { tasks = before ++ after }))
