-- ===== src/Rtsp/Session/Laws.antt =====
-- What `reset` promises to the clients that stay connected.
use comelit_man.Prelude.{
  ℕ, ◌+◌, ◌-◌, ◌%◌, ◌^◌, ◌≤◌, ◌<◌, max, ◌≡◌, refl, ◌↔◌, true, Option, none, some, [], arith,
}
use comelit_man.Rtsp.State.{Server}
use comelit_man.Rtsp.Session.{audio_clock_90k, reset}
use comelit_man.Rtsp.Timestamp.{sub32, translate_from, translate_video_ts}

-- After a reset the media queues are empty and the report counts zero, the audio clock and the
-- parameter sets are as before, and the video clock is not behind where it stood.
pub reset_lem :
    (secs frac : ℕ) (s : Server)
    → let s' = reset secs frac s in
      (s'.nal_queue.items ≡ [])
      × (s'.rtp_queue.items ≡ [])
      × (s'.audio_queue.items ≡ [])
      × (s'.video_pkt_count ≡ 0)
      × (s'.audio_pkt_count ≡ 0)
      × (s'.audio_ts ≡ s.audio_ts)
      × (s'.audio_seq ≡ s.audio_seq)
      × (s'.latest_sps ≡ s.latest_sps)
      × (s.video_ts_out ≤ s'.video_ts_out)
unfolding reset
reset_lem secs frac s = (refl, refl, refl, refl, refl, refl, refl, refl, omega arith)

translate_rebased :
    (o : Option ℕ) (s : Server) (device_ts : ℕ)
    → device_ts < 2 ^ 32
    → s.video_ts_rebase_pending ≡ true
    → (translate_from o s device_ts).video_ts_out ≡ (s.video_ts_out + 1) % 2 ^ 32
unfolding translate_from
translate_rebased none s device_ts h pending = omega arith
translate_rebased (some last) s device_ts h pending = rw pending (omega arith)

translate-reset :
    (secs frac : ℕ) (s : Server) (device_ts : ℕ)
    → device_ts < 2 ^ 32
    → (translate_video_ts (reset secs frac s) device_ts).video_ts_out
      ≡ (max s.video_ts_out (audio_clock_90k s) + 1) % 2 ^ 32
unfolding reset translate_video_ts
translate-reset secs frac s device_ts h =
    translate_rebased s.last_device_ts (reset secs frac s) device_ts h refl

-- How far round the circle the first frame after a reset lies ahead of the last one before it.
abbrev pub reset_step : ℕ → ℕ → Server → ℕ → ℕ
reset_step secs frac s device_ts =
    sub32 (translate_video_ts (reset secs frac s) device_ts).video_ts_out s.video_ts_out

-- The first frame after a reset is stamped one tick behind the greater of the video clock and
-- the audio clock, compared as plain numbers; so on the 32-bit circle it jumps back (forward by
-- more than 2 ^ 31) exactly when the audio clock is ahead by at least 2 ^ 31 and by less than
-- 2 ^ 32 - 1, as it is when the video clock has wrapped and the audio clock has not.
pub reset_jumps_back_iff :
    (secs frac : ℕ) (s : Server) (device_ts : ℕ)
    → device_ts < 2 ^ 32
    → s.video_ts_out < 2 ^ 32
    → (2 ^ 31 < reset_step secs frac s device_ts) ↔ (
        (s.video_ts_out + 2 ^ 31 ≤ audio_clock_90k s)
        × (audio_clock_90k s < s.video_ts_out + (2 ^ 32 - 1)))
reset_jumps_back_iff secs frac s device_ts h k = (
  λ e. omega (arith, translate-reset secs frac s device_ts h),
  λ e. omega (arith, translate-reset secs frac s device_ts h),
)
