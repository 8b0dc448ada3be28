-- ===== src/Rtsp/Timestamp/Monotone.antt =====
-- The output clock: it follows the device's steps forward, and takes one tick at a rebase.
use comelit_man.Prelude.{
  ℕ, ◌+◌, ◌%◌, ◌^◌, ◌≤◌, ◌<◌, ◌≡◌, refl, inl, inr, false, ◌||◌, Option, none, some, arith, ltb,
  if◌then◌else◌, Bool-cases,
}
use comelit_man.Rtsp.State.{Server}
use comelit_man.Rtsp.Timestamp.{sub32, rebase_offset, advance, translate_from, translate_video_ts}

-- While no rebase is pending, the last output is the last device timestamp plus the offset.
pub record IsClock (s : Server) : Type 0 where
  pub out_range : s.video_ts_out < 2 ^ 32
  pub offset_range : s.video_ts_offset < 2 ^ 32
  pub aligned :
      (d : ℕ)
      → s.last_device_ts ≡ some d
      → (d < 2 ^ 32)
        × (s.video_ts_rebase_pending ≡ false → s.video_ts_out ≡ (d + s.video_ts_offset) % 2 ^ 32)

advance-IsClock :
    (s : Server) (device_ts offset : ℕ)
    → device_ts < 2 ^ 32
    → offset < 2 ^ 32
    → IsClock (advance s device_ts offset)
advance-IsClock s device_ts offset h k = record {
  out_range = omega arith;
  offset_range = k;
  aligned = λ d e. let same : device_ts ≡ d = ground arith in (rw (← same) h, λ _. rw (← same));
}

translate_from-IsClock :
    (o : Option ℕ) (s : Server) (device_ts : ℕ)
    → s.last_device_ts ≡ o
    → IsClock s
    → device_ts < 2 ^ 32
    → IsClock (translate_from o s device_ts)
unfolding translate_video_ts
translate_from-IsClock none s device_ts e c h =
    advance-IsClock s device_ts (rebase_offset s device_ts) h (omega arith)
translate_from-IsClock (some last) s device_ts e c h =
    elim (Bool-cases (s.video_ts_rebase_pending || ltb 0x80000000 (sub32 device_ts last))) [
      | inl rebased ↦
          rw rebased (advance-IsClock s device_ts (rebase_offset s device_ts) h (omega arith))
      | inr kept ↦ rw kept (advance-IsClock s device_ts s.video_ts_offset h c.offset_range)
    ]

-- The clock invariant is kept by every frame.
pub translate_video_ts-IsClock :
    (s : Server) (device_ts : ℕ)
    → IsClock s
    → device_ts < 2 ^ 32
    → IsClock (translate_video_ts s device_ts)
unfolding translate_video_ts
translate_video_ts-IsClock s device_ts = translate_from-IsClock s.last_device_ts s device_ts refl

-- The distance forward from one output timestamp to the next, around the 32-bit circle.
abbrev pub step_to : Server → Server → ℕ
step_to s s' = sub32 s'.video_ts_out s.video_ts_out

-- One tick, or the device's own step when no rebase is pending.
abbrev pub FollowsDevice : Option ℕ → Server → Server → ℕ → Type 0
FollowsDevice none s s' device_ts = step_to s s' ≡ 1
FollowsDevice (some last) s s' device_ts = step_to s s' ≡ (
    if s.video_ts_rebase_pending || ltb 0x80000000 (sub32 device_ts last)
    then 1
    else sub32 device_ts last)

translate_from_step :
    (o : Option ℕ) (s : Server) (device_ts : ℕ)
    → s.last_device_ts ≡ o
    → IsClock s
    → device_ts < 2 ^ 32
    → FollowsDevice o s (translate_from o s device_ts) device_ts
      × (step_to s (translate_from o s device_ts) ≤ 2 ^ 31)
unfolding translate_video_ts
translate_from_step none s device_ts e c h = (ground arith, ground arith)
translate_from_step (some last) s device_ts e c h =
    (ground (arith, c.aligned last e), ground (arith, c.aligned last e))

-- The output clock takes the device's own step when no rebase is pending and the device went
-- forward by at most 2 ^ 31, and one tick in every other case; so it never goes back by the
-- half-circle test that the receiving side applies.
pub translate_video_ts_step :
    (s : Server) (device_ts : ℕ)
    → IsClock s
    → device_ts < 2 ^ 32
    → FollowsDevice s.last_device_ts s (translate_video_ts s device_ts) device_ts
      × (step_to s (translate_video_ts s device_ts) ≤ 2 ^ 31)
unfolding translate_video_ts
translate_video_ts_step s device_ts = translate_from_step s.last_device_ts s device_ts refl
