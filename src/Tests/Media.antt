-- ===== src/Tests/Media.antt =====
-- The media path at concrete inputs.
use comelit_man.Prelude.{
  ℕ, ◌+◌, ◌≤◌, ◌<◌, ◌≡◌, refl, true, [], ◌∷◌, ◌++◌, arith, length, replicate, length-replicate,
}
use comelit_man.Bytes.{Bytes}
use comelit_man.Receiver.State.{Receiver, init}
use comelit_man.Receiver.State
use comelit_man.Receiver.AudioSender.{
  Sender, fill, tx_header, icona_prefix, transmit, audio_round, udp,
}
use comelit_man.Receiver.Nal.{start_code, queue_nal}
use comelit_man.Rtsp.State.{video_ssrc, max_rtp_payload}
use comelit_man.Rtsp.Packets.{rtp_bytes}
use comelit_man.Rtsp.Video.{packetize}
use comelit_man.Rtsp.Video.Wire.{video_packets, process_all, process_all-packetize}
use comelit_man.Rtsp.Video.Fragments.{assembled}
use comelit_man.Rtsp.Ulaw.{ulaw_to_linear, ulaw_to_alaw}
use comelit_man.Rtsp.Ulaw.Accuracy.{alaw_magnitude, alaw_negative, half_step, ulaw_to_alaw_accuracy}
use comelit_man.Receiver.AudioSender.Rounds.{IsRound, audio_round-IsRound}

abbrev receiver : Receiver
receiver = State.init 8005 8006 77

abbrev long_body : Bytes
long_body = replicate 3000 0x41

long_enough : max_rtp_payload ≤ length long_body
long_enough = omega (arith, length-replicate {A = ℕ} 3000 0x41)

process_all-packetize_example :
    process_all receiver (video_packets 65535 90000 (packetize (0x65 ∷ long_body)))
    ≡ record (queue_nal
        (assembled receiver 90000 (0x65 ∷ long_body))
        90000
        (start_code ++ 0x65 ∷ long_body)) { current_fua_nal = [] }
process_all-packetize_example =
    process_all-packetize 0x65 long_body 65535 90000 receiver (omega arith) long_enough
      (omega arith) refl

abbrev rtp_packet : Bytes
rtp_packet = rtp_bytes 96 7 90000 video_ssrc (0x41 ∷ 0x9a ∷ []) true

ulaw_to_alaw_accuracy_example :
    (ulaw_to_alaw 0x2a < 256)
    × (alaw_negative (ulaw_to_alaw 0x2a) ≡ (ulaw_to_linear 0x2a).negative)
    × ((ulaw_to_linear 0x2a).magnitude
        ≤ alaw_magnitude (ulaw_to_alaw 0x2a) + half_step (ulaw_to_alaw 0x2a))
    × (alaw_magnitude (ulaw_to_alaw 0x2a)
        ≤ (ulaw_to_linear 0x2a).magnitude + half_step (ulaw_to_alaw 0x2a))
ulaw_to_alaw_accuracy_example = ulaw_to_alaw_accuracy 0x2a (omega arith)

-- A receiver with a socket, and enough audio for one frame.
abbrev sending : Receiver
sending = record receiver { has_transport = true }

abbrev speaking : Sender
speaking = record { seq = 7; ts = 1120; tx_buf = replicate 170 0x55 }

audio_round-IsRound_example :
    let out = audio_round 0xa0d10001 77 true true (sending, speaking) in
    IsRound 0xa0d10001 77 true true sending speaking out.0.0 out.0.1 out.1
audio_round-IsRound_example =
    audio_round-IsRound 0xa0d10001 77 true true sending speaking (omega arith)

sent_by_udp :
    (audio_round 0xa0d10001 77 true true (sending, speaking)).1
    ≡ udp (icona_prefix 77 ++ (tx_header 7 1120 0xa0d10001 ++ replicate 160 0x55))
unfolding audio_round fill transmit
sent_by_udp = refl
