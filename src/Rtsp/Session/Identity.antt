-- ===== src/Rtsp/Session/Identity.antt =====
-- Priming a client writes to it and leaves it the same connection.
use comelit_man.Rtsp.Session.{
  write_to, report_to, send_initial_sr, send_parameter_sets, prime_on, prime_client,
}
use comelit_man.Rtsp.State.{Writer, TcpClient, Server, video_ssrc, alive, closing, broken}
use comelit_man.Prelude.{
  ℕ, ◌+◌, ◌%◌, ◌^◌, ◌≡◌, refl, ◌∙◌, false, Option, none, some, List, [], ◌∷◌, ltb, if_at, Result,
  err, ok,
}
use comelit_man.Bytes.{Bytes}
use comelit_man.Rtsp.Packets.{interleave, rtp_bytes}
use comelit_man.Receiver.Nal.{is_empty}

-- A client's identity through the writes.
pub write_to-id : (w : Writer) (c : TcpClient) (r : Result Bytes) → (write_to w c r).0.id ≡ c.id
unfolding write_to
write_to-id alive c (ok framed) = refl
write_to-id closing c (ok framed) = refl
write_to-id broken c (ok framed) = refl
write_to-id alive c (err e) = refl
write_to-id closing c (err e) = refl
write_to-id broken c (err e) = refl

report_to-id :
    (ch : Option ℕ) (n : ℕ) (sr : Bytes) (c : TcpClient) → (report_to ch n sr c).id ≡ c.id
unfolding report_to
report_to-id none n sr c = refl
report_to-id (some ch) n sr c =
    if_at (λ d. d.id ≡ c.id) (ltb 0 n) _ c (write_to-id c.writer c (interleave (ch + 1) sr)) refl

send_initial_sr-id :
    (secs frac : ℕ) (s : Server) (c : TcpClient) → (send_initial_sr secs frac s c).id ≡ c.id
unfolding send_initial_sr
send_initial_sr-id secs frac s c =
    report_to-id c.audio_ch s.audio_pkt_count _ (report_to c.video_ch s.video_pkt_count _ c)
    ∙ report_to-id c.video_ch s.video_pkt_count _ c

send_parameter_sets-id :
    (ch : ℕ) (nals : List Bytes) (seq ts : ℕ) (c : TcpClient)
    → (send_parameter_sets ch nals seq ts c).1.id ≡ c.id
unfolding send_parameter_sets
send_parameter_sets-id ch [] seq ts c = refl
send_parameter_sets-id ch (nal ∷ nals) seq ts c =
    let framed = interleave ch (rtp_bytes 96 seq ts video_ssrc nal false) in
    let out = write_to-id c.writer c framed in
    if_at (λ (p : ℕ × TcpClient). p.1.id ≡ c.id) (is_empty nal) _ _
      (send_parameter_sets-id ch nals seq ts c)
      (if_at (λ (p : ℕ × TcpClient). p.1.id ≡ c.id) ((write_to c.writer c framed).1) _ _ out
        (send_parameter_sets-id ch nals ((seq + 1) % 2 ^ 16) ts ((write_to c.writer c framed).0)
          ∙ out))

prime_on-id :
    (ch : Option ℕ) (secs frac : ℕ) (s : Server) (c : TcpClient)
    → (prime_on ch secs frac s c).1.id ≡ c.id
unfolding prime_on
prime_on-id none secs frac s c = refl
prime_on-id (some ch) secs frac s c =
    send_parameter_sets-id ch (s.latest_sps ∷ s.latest_pps ∷ []) s.video_seq s.video_ts_out
      (send_initial_sr secs frac s c)
    ∙ send_initial_sr-id secs frac s c

pub prime_client-id :
    (secs frac : ℕ) (s : Server) (c : TcpClient) → (prime_client secs frac s c).1.id ≡ c.id
unfolding prime_client
prime_client-id secs frac s c = prime_on-id c.video_ch secs frac s c
