-- ===== src/Rtsp/Audio/Clock.antt =====
-- The timestamps of consecutive audio packets.
use comelit_man.Prelude.{ℕ, ◌+◌, ◌-◌, ◌%◌, ◌^◌, ◌≡◌, arith, leb, if◌then◌else◌, length}
use comelit_man.Bytes.{Bytes}
use comelit_man.Rtsp.State.{Server}
use comelit_man.Rtsp.Audio.{discontinuity, samples, send_audio}

-- Of two packets sent one after the other, the second is stamped behind the samples of the first
-- while the gap is below half a second, and by the samples of the gap otherwise; its sequence
-- number is the next one, and the counts take both payloads.
pub send_audio_twice :
    (s : Server) (now later : ℕ) (first second : Bytes)
    → let s' = send_audio now s first in
      let s'' = send_audio later s' second in
      (s''.last_audio_send_ts
        ≡ (s'.last_audio_send_ts
            + (if leb discontinuity (later - now) then samples (later - now) else length first))
          % 2 ^ 32)
      × (s''.audio_seq ≡ (s.audio_seq + 2) % 2 ^ 16)
      × (s''.audio_pkt_count ≡ s.audio_pkt_count + 2)
      × (s''.audio_octet_count ≡ s.audio_octet_count + length first + length second)
unfolding send_audio
send_audio_twice s now later first second = (ground arith, ground arith, ground arith, ground arith)
