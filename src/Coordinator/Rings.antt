-- ===== src/Coordinator/Rings.antt =====
-- The three callbacks for rings and idle frames, which run to their end without an await.
pub mod Dedup
use comelit_man.Coordinator.State.{
  ring_dedup_window, missed_call_window, Seen, Live, Coordinator, fire, spawn, is_some, ring,
  missed_call, inbound_video,
}
use comelit_man.Prelude.{
  Text, ℕ, ◌+◌, Bool, false, ◌&&◌, ◌||◌, Option, none, some, List, [], ◌∷◌, ltb, leb, ◌==◌,
  if◌then◌else◌,
}
use comelit_man.Bytes.{Bytes, same_bytes}

abbrev pub is_key : Text → ℕ → Seen → Bool
is_key entrance ring_ts r = same_bytes entrance r.entrance && ring_ts == r.ring_ts

-- `self._recent_rings.get(key)`
unfoldable pub seen_at : Text → ℕ → List Seen → Option ℕ
seen_at entrance ring_ts [] = none
seen_at entrance ring_ts (r ∷ rs) =
    let later = seen_at entrance ring_ts rs in
    if is_key entrance ring_ts r then some r.seen else later

-- `self._recent_rings[key] = now`
unfoldable pub put_ring : Text → ℕ → ℕ → List Seen → List Seen
put_ring entrance ring_ts now [] =
    record { entrance = entrance; ring_ts = ring_ts; seen = now } ∷ []
put_ring entrance ring_ts now (r ∷ rs) =
    let later = put_ring entrance ring_ts now rs in
    if is_key entrance ring_ts r then record r { seen = now } ∷ rs else r ∷ later

-- The entries that are younger than the window.
unfoldable pub prune : ℕ → List Seen → List Seen
prune now [] = []
prune now (r ∷ rs) =
    let later = prune now rs in if ltb now (r.seen + ring_dedup_window) then r ∷ later else later

unfoldable pub is_retransmit : ℕ → Option ℕ → Bool
is_retransmit now none = false
is_retransmit now (some seen) = ltb now (seen + ring_dedup_window)

unfoldable pub on_inbound_ring : ℕ → Text → ℕ → Coordinator → Coordinator
on_inbound_ring now entrance ring_ts c =
    if is_retransmit now (seen_at entrance ring_ts c.recent_rings)
    then c
    else spawn (inbound_video entrance ring_ts) (record c {
      recent_rings = put_ring entrance ring_ts now (prune now c.recent_rings);
      last_ring = some now;
      answered = false;
    })

abbrev pub frame_or : Option Bytes → Option Bytes → Option Bytes
frame_or none old = old
frame_or (some frame) old = some frame

-- The session's receiver, when there is one.
abbrev has_receiver : Option Live → Bool
has_receiver none = false
has_receiver (some s) = is_some s.call.receiver

-- The ring that the session's monitor forwards; `frame` is the decoder's latest frame.
unfoldable pub on_ring_during_video : ℕ → Option Bytes → Text → ℕ → Coordinator → Coordinator
on_ring_during_video now frame entrance ring_ts c =
    if is_retransmit now (seen_at entrance ring_ts c.recent_rings)
    then c
    else fire ring entrance (record c {
      recent_rings = put_ring entrance ring_ts now c.recent_rings;
      last_ring = some now;
      answered = false;
      pending = some entrance;
      snapshot = if has_receiver c.session then frame_or frame c.snapshot else c.snapshot;
    })

-- Whether the last ring is within the window of the missed call.
unfoldable pub is_recent : ℕ → Option ℕ → Bool
is_recent now none = false
is_recent now (some t) = leb now (t + missed_call_window)

abbrev pub first_or_empty : List Text → Text
first_or_empty [] = []
first_or_empty (a ∷ addrs) = a

unfoldable pub on_call_idle : ℕ → List Text → Coordinator → Coordinator
on_call_idle now addrs c =
    if is_some c.session || c.answered
    then c
    else if is_recent now c.last_ring
    then fire missed_call (first_or_empty addrs) (record c { last_ring = none })
    else c
