-- ===== src/Coordinator/Steps/Retransmits.antt =====
-- A ring that was accepted, and its retransmissions in the same window, whatever the steps between.
use comelit_man.Coordinator.State.{
  ring_dedup_window, Seen, Coordinator, fire, spawn, ring, inbound_video,
}
use comelit_man.Coordinator.Steps.{
  Event, event_ring, handle, resume, Run, inbound_ring, ring_during_video, call_idle, call_end,
  user_start, user_stop, stop_requested, answer_pressed, door_pressed, disconnected, update_due,
  at_rest, called, resumed,
}
use comelit_man.Coordinator.Rings.Dedup.{
  IsRemembered, put_ring-new, put_ring-IsRemembered, prune-IsRemembered,
}
use comelit_man.Prelude.{
  Text, ℕ, ◌+◌, ◌≤◌, ◌<◌, ◌≡◌, refl, ap, ◌∙◌, inl, inr, Bool, true, false, Option, some, List, ◌++◌,
  arith, ltb, if◌then◌else◌, lt→ltb, Option-cases,
}
use comelit_man.Coordinator.Rings.{
  seen_at, prune, is_retransmit, on_inbound_ring, on_ring_during_video,
}
use comelit_man.Coordinator.Steps.Lock.{
  IsExclusive, taken-HasLock, called-IsExclusive, Run-IsExclusive,
}
use comelit_man.Coordinator.Steps.Starts.{resume-Segment, called-Segment}
use comelit_man.Bytes.{Bytes}

-- The ring, if the call is one, comes within the window that begins at `t0`.
unfoldable pub IsTimely : ℕ → Event → Type 0
IsTimely t0 e = (now : ℕ) → event_ring e ≡ some now → (t0 ≤ now) × (now < t0 + ring_dedup_window)

same_rings :
    (a : Text) (at t0 : ℕ) (old new : List Seen)
    → new ≡ old
    → IsRemembered a at t0 old
    → IsRemembered a at t0 new
unfolding IsRemembered
same_rings a at t0 old new e (t, s, le) = (t, ap (seen_at a at) e ∙ s, le)

kept_if :
    (a : Text) (at t0 : ℕ) (c d : Coordinator) (b : Bool)
    → IsRemembered a at t0 c.recent_rings
    → IsRemembered a at t0 d.recent_rings
    → IsRemembered a at t0 (if b then c else d).recent_rings
kept_if a at t0 c d true x y = x
kept_if a at t0 c d false x y = y

rung-IsRemembered :
    (a : Text) (at t0 : ℕ) (e : Event) (now : ℕ) (c : Coordinator)
    → event_ring e ≡ some now
    → IsTimely t0 e
    → IsRemembered a at t0 c.recent_rings
    → IsRemembered a at t0 (handle e c).recent_rings
unfolding handle on_inbound_ring on_ring_during_video IsTimely
rung-IsRemembered a at t0 (inbound_ring now b bt) n c h timely x =
    kept_if a at t0 c (spawn (inbound_video b bt) _)
      (is_retransmit now (seen_at b bt c.recent_rings)) x
      (put_ring-IsRemembered a at t0 b bt now (prune now c.recent_rings) (timely now refl).0
        (prune-IsRemembered a at t0 now c.recent_rings (timely now refl).1 x))
rung-IsRemembered a at t0 (ring_during_video now frame b bt) n c h timely x =
    kept_if a at t0 c (fire ring b _) (is_retransmit now (seen_at b bt c.recent_rings)) x
      (put_ring-IsRemembered a at t0 b bt now c.recent_rings (timely now refl).0 x)
rung-IsRemembered a at t0 (call_idle now addrs) n c h timely x = cc
rung-IsRemembered a at t0 call_end n c h timely x = cc
rung-IsRemembered a at t0 user_start n c h timely x = cc
rung-IsRemembered a at t0 user_stop n c h timely x = cc
rung-IsRemembered a at t0 stop_requested n c h timely x = cc
rung-IsRemembered a at t0 (answer_pressed handed) n c h timely x = cc
rung-IsRemembered a at t0 (door_pressed relay) n c h timely x = cc
rung-IsRemembered a at t0 disconnected n c h timely x = cc
rung-IsRemembered a at t0 update_due n c h timely x = cc

called-IsRemembered :
    (a : Text) (at t0 : ℕ) (e : Event) (c : Coordinator)
    → IsTimely t0 e
    → IsRemembered a at t0 c.recent_rings
    → IsRemembered a at t0 (handle e c).recent_rings
called-IsRemembered a at t0 e c timely x = elim (Option-cases (event_ring e)) [
  | inl other ↦
      same_rings a at t0 c.recent_rings (handle e c).recent_rings (called-Segment e c other).rings x
  | inr (now, a_ring) ↦ rung-IsRemembered a at t0 e now c a_ring timely x
]

Run-IsRemembered :
    (a : Text) (at t0 : ℕ) (c d : Coordinator)
    → IsExclusive c
    → IsRemembered a at t0 c.recent_rings
    → Run (IsTimely t0) c d
    → IsRemembered a at t0 d.recent_rings
Run-IsRemembered a at t0 c d x m at_rest = m
Run-IsRemembered a at t0 c d x m (called {d = e} event timely run) =
    called-IsRemembered a at t0 event e timely (Run-IsRemembered a at t0 c e x m run)
Run-IsRemembered a at t0 c d x m (resumed {d = e} r before t after taken run) =
    same_rings a at t0 e.recent_rings
      (resume r t (record e { tasks = before ++ after })).recent_rings
      (resume-Segment r t (record e { tasks = before ++ after })
        (taken-HasLock before after t e taken (Run-IsExclusive c e x run))).rings
      (Run-IsRemembered a at t0 c e x m run)

accepted :
    (a : Text) (at t0 : ℕ) (c : Coordinator)
    → is_retransmit t0 (seen_at a at c.recent_rings) ≡ false
    → IsRemembered a at t0 (on_inbound_ring t0 a at c).recent_rings
unfolding on_inbound_ring IsRemembered
accepted a at t0 c new = rw new (t0, put_ring-new a at t0 (prune t0 c.recent_rings), omega arith)

accepted-IsExclusive :
    (a : Text) (at t0 : ℕ) (c : Coordinator)
    → IsExclusive c
    → IsExclusive (on_inbound_ring t0 a at c)
unfolding handle
accepted-IsExclusive a at t0 c x = called-IsExclusive (inbound_ring t0 a at) c x

-- A ring that is accepted at a time, in a state whose lock is held as it should be, is ignored for
-- the two minutes after it on both paths that a ring may come by, after any calls and any steps of
-- the coroutines in between; the other rings among these come at that time or later, within the
-- same two minutes.
pub on_inbound_ring-ignored :
    (a : Text) (at t0 now : ℕ) (frame : Option Bytes) (c d : Coordinator)
    → IsExclusive c
    → is_retransmit t0 (seen_at a at c.recent_rings) ≡ false
    → Run (IsTimely t0) (on_inbound_ring t0 a at c) d
    → now < t0 + ring_dedup_window
    → (on_inbound_ring now a at d ≡ d) × (on_ring_during_video now frame a at d ≡ d)
unfolding on_inbound_ring on_ring_during_video IsRemembered is_retransmit
on_inbound_ring-ignored a at t0 now frame c d x new run h =
    let (t, e, le) =
      Run-IsRemembered a at t0 (on_inbound_ring t0 a at c) d (accepted-IsExclusive a at t0 c x)
        (accepted a at t0 c new) run in
    let early : ltb now (t + ring_dedup_window) ≡ true =
      lt→ltb now (t + ring_dedup_window) (omega (arith, le, h)) in
    (rw (e, early) refl, rw (e, early) refl)
