-- ===== src/Tests/Coordination.antt =====
-- The coordinator at concrete inputs.
use comelit_man.Coordinator.State.{
  Live, Reply, Coordinator, missed_call, push_event, stop_callbacks, return_stopped, start_passive,
  inbound_video, auto_restart, starting,
}
use comelit_man.Coordinator.Video.TakeBack.{IsShared, finish_stop-listener}
use comelit_man.Coordinator.Video.{begin_stop, finish_stop, publish}
use comelit_man.Tests.Calls.{ctpp, client, device, call, ctpp_open}
use comelit_man.Coordinator.Steps.{resume, Run, at_rest, resumed}
use comelit_man.Prelude.{Text, ◌<◌, ◌≡◌, refl, true, false, none, some, [], ◌∷◌, ◌++◌, arith, ok}
use comelit_man.Coordinator.Steps.Lock.{IsExclusive, Run-IsExclusive, resumed-work}
use comelit_man.Coordinator.Rings.{
  seen_at, is_retransmit, on_inbound_ring, on_ring_during_video, on_call_idle,
}
use comelit_man.Coordinator.Steps.Segments.{total_work}
use comelit_man.Coordinator.Steps.Passive.{IsRingEnd, video_of, run_alone, run_alone-IsRingEnd}
use comelit_man.Coordinator.Connection.{drop_connection, adopt}
use comelit_man.Coordinator.Steps.Retransmits.{IsTimely, on_inbound_ring-ignored}
use comelit_man.Coordinator.Video.Missed.{
  begin_stop-missed_twice, dropped_notes, drop_connection-pending,
}

abbrev idle : Coordinator
idle = record {
  config =
      some (record { apt_address = call.apt_address; apt_subaddress = 2; caller_address = [] });
  client = some client;
  connection = 1;
  notifications = true;
  has_server = true;
  session = none;
  stopped_by_user = false;
  start_locked = false;
  video_ready = false;
  has_listener = true;
  ctpp_init_ts = 1700000000;
  connection_lost = false;
  snapshot = none;
  recent_rings = [];
  last_ring = none;
  answered = false;
  pending = none;
  tasks = [];
  notes = [];
}

abbrev reply : Reply
reply = record {
  device = device;
  receiver_there = true;
  latest_frame = some (0xff ∷ 0xd8 ∷ []);
  jpeg = none;
  client_count = 1;
  connected = ok (client, 1700000100);
}

abbrev entrance : Text
entrance = b'S' ∷ b'B' ∷ b'1' ∷ []

idle-IsExclusive : IsExclusive idle
idle-IsExclusive = record { one = refl }

-- The ring's coroutine begins between the ring and its retransmission.
after_ring : Run (IsTimely 1000000) (on_inbound_ring 1000000 entrance 7 idle) (
    resume reply
      (inbound_video entrance 7)
      (record (on_inbound_ring 1000000 entrance 7 idle) { tasks = [] }))
unfolding on_inbound_ring is_retransmit seen_at
after_ring = resumed reply [] (inbound_video entrance 7) [] refl at_rest

first_ring : is_retransmit 1000000 (seen_at entrance 7 idle.recent_rings) ≡ false
unfolding is_retransmit seen_at
first_ring = refl

on_inbound_ring-ignored_example :
    (on_inbound_ring 2000000 entrance 7 (
        resume reply
          (inbound_video entrance 7)
          (record (on_inbound_ring 1000000 entrance 7 idle) { tasks = [] }))
      ≡ resume reply
          (inbound_video entrance 7)
          (record (on_inbound_ring 1000000 entrance 7 idle) { tasks = [] }))
    × (on_ring_during_video 2000000 none entrance 7 (
          resume reply
            (inbound_video entrance 7)
            (record (on_inbound_ring 1000000 entrance 7 idle) { tasks = [] }))
        ≡ resume reply
            (inbound_video entrance 7)
            (record (on_inbound_ring 1000000 entrance 7 idle) { tasks = [] }))
on_inbound_ring-ignored_example =
    on_inbound_ring-ignored entrance 7 1000000 2000000 none idle
      (resume reply (inbound_video entrance 7)
        (record (on_inbound_ring 1000000 entrance 7 idle) { tasks = [] }))
      idle-IsExclusive first_ring after_ring (omega arith)

rung-IsExclusive : IsExclusive (on_inbound_ring 1000000 entrance 7 idle)
unfolding on_inbound_ring is_retransmit seen_at
rung-IsExclusive = record { one = refl }

Run-IsExclusive_example : IsExclusive (
    resume reply
      (inbound_video entrance 7)
      (record (on_inbound_ring 1000000 entrance 7 idle) { tasks = [] }))
Run-IsExclusive_example =
    Run-IsExclusive (on_inbound_ring 1000000 entrance 7 idle)
      (resume reply (inbound_video entrance 7)
        (record (on_inbound_ring 1000000 entrance 7 idle) { tasks = [] }))
      rung-IsExclusive after_ring

abbrev scheduled : Coordinator
scheduled = record idle { tasks = inbound_video entrance 7 ∷ auto_restart ∷ [] }

scheduled-IsExclusive : IsExclusive scheduled
scheduled-IsExclusive = record { one = refl }

resumed-work_example :
    (total_work
        (resume reply auto_restart
          (record scheduled { tasks = inbound_video entrance 7 ∷ [] })).tasks
      < total_work scheduled.tasks)
    × ((resume reply auto_restart
            (record scheduled { tasks = inbound_video entrance 7 ∷ [] })).tasks
          ≡ []
        → (resume reply auto_restart
            (record scheduled { tasks = inbound_video entrance 7 ∷ [] })).start_locked
          ≡ false)
resumed-work_example =
    resumed-work reply (inbound_video entrance 7 ∷ []) [] auto_restart scheduled
      scheduled-IsExclusive refl

-- The coroutine of a ring at the start of its session; the decoder has no frame yet.
abbrev beginning : Coordinator
beginning = record idle { start_locked = true; tasks = starting (start_passive entrance 7) ∷ [] }

abbrev late_frame : Reply
late_frame = record reply { latest_frame = none; jpeg = some (0xff ∷ 0xd8 ∷ []) }

run_alone-IsRingEnd_example :
    IsRingEnd entrance
      (video_of 7 late_frame beginning.config beginning.client beginning)
      beginning
      (run_alone (late_frame ∷ late_frame ∷ late_frame ∷ []) beginning)
run_alone-IsRingEnd_example =
    run_alone-IsRingEnd entrance 7 late_frame late_frame late_frame beginning refl

abbrev live : Live
live = record { call = call; connection = 1 }

abbrev unanswered : Coordinator
unanswered = record idle { session = some live; pending = some entrance; last_ring = some 1000000 }

begin_stop-missed_twice_example :
    (on_call_idle 5000000 (entrance ∷ []) (begin_stop return_stopped unanswered)).notes
    ≡ push_event missed_call entrance ∷ stop_callbacks ∷ push_event missed_call entrance ∷ []
begin_stop-missed_twice_example =
    begin_stop-missed_twice unanswered live entrance 1000000 5000000 (entrance ∷ []) refl refl refl
      refl (omega arith)

drop_connection-pending_example :
    ((drop_connection unanswered).notes ≡ dropped_notes true)
    × ((begin_stop return_stopped
          (publish call (adopt (client, 1700000100) (drop_connection unanswered)))).notes
        ≡ (publish call (adopt (client, 1700000100) (drop_connection unanswered))).notes
          ++ push_event missed_call entrance ∷ stop_callbacks ∷ [])
drop_connection-pending_example =
    drop_connection-pending unanswered live entrance (client, 1700000100) call refl refl refl

live-IsShared : IsShared live idle
live-IsShared = record {
  config = record { apt_address = call.apt_address; apt_subaddress = 2; caller_address = [] };
  configured = refl;
  client = client;
  connected = refl;
  ctpp = ctpp;
  open_ctpp = ctpp_open;
  notified = refl;
  borrowed = refl;
  same_connection = refl;
}

finish_stop-listener_example : (finish_stop live return_stopped idle).has_listener ≡ true
finish_stop-listener_example = finish_stop-listener live idle live-IsShared refl
