-- ===== src/Rtsp/Timestamp.antt =====
-- `_translate_video_ts`: device timestamps to output timestamps that never go back.
pub mod Monotone
use comelit_man.Prelude.{ℕ, ◌+◌, ◌-◌, ◌%◌, ◌^◌, false, ◌||◌, Option, none, some, ltb, if◌then◌else◌}
use comelit_man.Rtsp.State.{Server}

-- `(a - b) & 0xFFFFFFFF` for numbers below 2 ^ 32.
abbrev pub sub32 : ℕ → ℕ → ℕ
sub32 a b = (a + 2 ^ 32 - b) % 2 ^ 32

-- `(self._video_ts_out + 1 - device_ts) & 0xFFFFFFFF`
abbrev pub rebase_offset : Server → ℕ → ℕ
rebase_offset s device_ts = sub32 (s.video_ts_out + 1) device_ts

-- The last lines of the method, with the offset that the branches chose.
abbrev pub advance : Server → ℕ → ℕ → Server
advance s device_ts offset = record s {
  video_ts_offset = offset;
  last_device_ts = some device_ts;
  video_ts_out = (device_ts + offset) % 2 ^ 32;
  video_ts_rebase_pending = false;
}

-- In the last branch the flag is false already.
unfoldable pub translate_from : Option ℕ → Server → ℕ → Server
translate_from none s device_ts = advance s device_ts (rebase_offset s device_ts)
translate_from (some last) s device_ts =
    if s.video_ts_rebase_pending || ltb 0x80000000 (sub32 device_ts last)
    then advance s device_ts (rebase_offset s device_ts)
    else advance s device_ts s.video_ts_offset

unfoldable pub translate_video_ts : Server → ℕ → Server
unfolding translate_from
translate_video_ts s device_ts = translate_from s.last_device_ts s device_ts
