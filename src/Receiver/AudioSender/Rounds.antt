-- ===== src/Receiver/AudioSender/Rounds.antt =====
-- One round of the audio sender: which audio goes out, by which transport, and what stays buffered.
use comelit_man.Prelude.{
  ℕ, ◌+◌, ◌-◌, ◌%◌, ◌^◌, ◌≤◌, ◌<◌, ◌≡◌, refl, sym, ap, ◌∙◌, inl, inr, Bool, true, false, ◌&&◌,
  Option, none, some, [], ◌++◌, append-nil, arith, ltb, leb, if◌then◌else◌, ltb→lt, leb→le,
  Bool-cases, length, take, drop, take-append-drop, length-take, length-drop, length-replicate,
  take_append_length,
}
use comelit_man.Bytes.{Bytes}
use comelit_man.Queue.{Queue}
use comelit_man.Receiver.State.{Receiver}
use comelit_man.Receiver.AudioSender.{
  Sender, silence, concat, fill, emptied, Sent, tx_header, icona_prefix, transmit, audio_round, tcp,
  udp, unsent,
}

-- All the audio that waits: what was left, and the queue behind it.
abbrev pub waiting : Option (Queue Bytes) → Bytes → Bytes
waiting none tx_buf = tx_buf
waiting (some q) tx_buf = tx_buf ++ concat q.items

-- What of it is taken up: all, or the last 3200 bytes when there are more than 6400.
pub data Buffered (all : Bytes) : Bytes → Type 0 where
  kept : length all ≤ 6400 → Buffered all all
  trimmed :
      (old recent : Bytes)
      → 6400 < length all
      → all ≡ old ++ recent
      → length recent ≡ 3200
      → Buffered all recent

-- The audio of a frame and what is left of the buffer, with the counts of real and of silent
-- frames: the first 160 bytes, or silence when there are fewer, which are then kept.
pub data Spoken (buffer : Bytes) : Bytes → Bytes → ℕ → ℕ → Type 0 where
  real :
      (audio rest : Bytes)
      → buffer ≡ audio ++ rest
      → length audio ≡ 160
      → Spoken buffer audio rest 1 0
  silent : length buffer < 160 → Spoken buffer silence buffer 0 1

-- The transport of a frame, and the count of frames sent: TCP while more media comes by it than by
-- UDP and a sender is given, else UDP with the ICONA prefix. A frame is not sent, and not counted,
-- only when the TCP send raises or there is no socket.
pub data Transported (r : Receiver) (tcp_send tcp_ok : Bool) (req_id : ℕ) (frame : Bytes)
    : ℕ → Sent → Type 0 where
  by_tcp :
      tcp_send ≡ true
      → r.udp_media_packet_count < r.tcp_media_packet_count
      → tcp_ok ≡ true
      → Transported r tcp_send tcp_ok req_id frame (r.audio_sent_count + 1) (tcp frame)
  tcp_failed :
      tcp_send ≡ true
      → r.udp_media_packet_count < r.tcp_media_packet_count
      → tcp_ok ≡ false
      → Transported r tcp_send tcp_ok req_id frame r.audio_sent_count unsent
  by_udp :
      (tcp_send ≡ true → r.tcp_media_packet_count ≤ r.udp_media_packet_count)
      → r.has_transport ≡ true
      → Transported r tcp_send tcp_ok req_id frame
          (r.audio_sent_count + 1)
          (udp (icona_prefix req_id ++ frame))
  no_socket :
      (tcp_send ≡ true → r.tcp_media_packet_count ≤ r.udp_media_packet_count)
      → r.has_transport ≡ false
      → Transported r tcp_send tcp_ok req_id frame r.audio_sent_count unsent

-- One round, from a receiver and a sender to the next, with what went out.
pub record IsRound (ssrc req_id : ℕ) (tcp_send tcp_ok : Bool) (r : Receiver) (s : Sender)
    (r' : Receiver) (s' : Sender) (out : Sent) : Type 0 where
  pub buffer : Bytes
  pub audio : Bytes
  pub reals : ℕ
  pub silences : ℕ
  pub buffered : Buffered (waiting r.backchannel_queue s.tx_buf) buffer
  pub spoken : Spoken buffer audio s'.tx_buf reals silences
  pub transported :
      Transported r tcp_send tcp_ok req_id
        (tx_header s.seq s.ts ssrc ++ audio)
        r'.audio_sent_count
        out
  pub emptied_queue : r'.backchannel_queue ≡ emptied r.backchannel_queue
  pub real_count : r'.audio_tx_real_count ≡ r.audio_tx_real_count + reals
  pub silence_count : r'.audio_tx_silence_count ≡ r.audio_tx_silence_count + silences
  pub next_seq : s'.seq ≡ s.seq + 1
  pub next_ts : s'.ts ≡ (s.ts + 160) % 2 ^ 32

not_less : (a b : ℕ) → ltb a b ≡ false → b ≤ a
not_less a b h = ground arith

not_leb : (a b : ℕ) → leb a b ≡ false → b < a
not_leb a b h = ground arith

take_whole : (n : ℕ) (xs : Bytes) → length xs ≡ n → take n xs ≡ xs
take_whole n xs h = ap (take n) (sym (append-nil xs)) ∙ take_append_length n xs [] h

fill-Buffered :
    (o : Option (Queue Bytes)) (tx_buf : Bytes)
    → length tx_buf ≤ 6400
    → Buffered (waiting o tx_buf) (fill o tx_buf)
unfolding fill
fill-Buffered none tx_buf h = kept h
fill-Buffered (some q) tx_buf h =
    let all = tx_buf ++ concat q.items in
    elim (Bool-cases (ltb 6400 (length all))) [
      | inl long ↦ rw long (
          trimmed (take (length all - 3200) all) (drop (length all - 3200) all)
            (ltb→lt 6400 (length all) long) (sym (take-append-drop (length all - 3200) all))
            (omega (arith, ltb→lt 6400 (length all) long, length-drop (length all - 3200) all)))
      | inr short ↦ rw short (kept (not_less 6400 (length all) short))
    ]

-- What a transport returns keeps the queue and the two counts, and hands on the frame.
record IsHandedOn (r : Receiver) (tcp_send tcp_ok : Bool) (req_id : ℕ) (frame : Bytes)
    (result : Receiver × Sent) : Type 0 where
  pub queue : result.0.backchannel_queue ≡ r.backchannel_queue
  pub reals : result.0.audio_tx_real_count ≡ r.audio_tx_real_count
  pub silences : result.0.audio_tx_silence_count ≡ r.audio_tx_silence_count
  pub how : Transported r tcp_send tcp_ok req_id frame result.0.audio_sent_count result.1

both : (a b : Bool) → (a && b) ≡ true → (a ≡ true) × (b ≡ true)
both true b h = (refl, h)
both false b h = cc

not_second : (a b : Bool) → (a && b) ≡ false → a ≡ true → b ≡ false
not_second true b h e = h
not_second false b h e = cc

over_tcp-IsHandedOn :
    (r : Receiver) (tcp_send tcp_ok : Bool) (req_id : ℕ) (frame : Bytes)
    → tcp_send ≡ true
    → r.udp_media_packet_count < r.tcp_media_packet_count
    → IsHandedOn r tcp_send tcp_ok req_id frame (
        if tcp_ok
        then (record r { audio_sent_count = r.audio_sent_count + 1 }, tcp frame)
        else (r, unsent))
over_tcp-IsHandedOn r tcp_send true req_id frame given less = record {
  queue = refl;
  reals = refl;
  silences = refl;
  how = by_tcp given less refl;
}
over_tcp-IsHandedOn r tcp_send false req_id frame given less = record {
  queue = refl;
  reals = refl;
  silences = refl;
  how = tcp_failed given less refl;
}

over_udp-IsHandedOn :
    (r : Receiver) (tcp_send tcp_ok : Bool) (req_id : ℕ) (frame : Bytes) (socket : Bool)
    → r.has_transport ≡ socket
    → (tcp_send ≡ true → r.tcp_media_packet_count ≤ r.udp_media_packet_count)
    → IsHandedOn r tcp_send tcp_ok req_id frame (
        if socket
        then (
          record r { audio_sent_count = r.audio_sent_count + 1 },
          udp (icona_prefix req_id ++ frame),
        )
        else (r, unsent))
over_udp-IsHandedOn r tcp_send tcp_ok req_id frame true there most = record {
  queue = refl;
  reals = refl;
  silences = refl;
  how = by_udp most there;
}
over_udp-IsHandedOn r tcp_send tcp_ok req_id frame false gone most = record {
  queue = refl;
  reals = refl;
  silences = refl;
  how = no_socket most gone;
}

transmit-IsHandedOn :
    (r : Receiver) (tcp_send tcp_ok : Bool) (req_id : ℕ) (frame : Bytes)
    → IsHandedOn r tcp_send tcp_ok req_id frame (transmit r tcp_send tcp_ok req_id frame)
unfolding transmit
transmit-IsHandedOn r tcp_send tcp_ok req_id frame =
    let more = ltb r.udp_media_packet_count r.tcp_media_packet_count in
    elim (Bool-cases (tcp_send && more)) [
      | inl over_tcp ↦
          let (given, m) = both tcp_send more over_tcp in
          rw over_tcp (
            over_tcp-IsHandedOn r tcp_send tcp_ok req_id frame given
              (ltb→lt r.udp_media_packet_count r.tcp_media_packet_count m))
      | inr over_udp ↦
          let most : tcp_send ≡ true → r.tcp_media_packet_count ≤ r.udp_media_packet_count =
            λ given.
              not_less r.udp_media_packet_count r.tcp_media_packet_count
                (not_second tcp_send more over_udp given) in
          rw over_udp (over_udp-IsHandedOn r tcp_send tcp_ok req_id frame r.has_transport refl most)
    ]

-- The receiver behind the draining of the queue.
abbrev drained : Receiver → ℕ → ℕ → Receiver
drained r reals silences = record r {
  backchannel_queue = emptied r.backchannel_queue;
  audio_tx_real_count = reals;
  audio_tx_silence_count = silences;
}

as_drained :
    (r : Receiver) (reals silences : ℕ) {tcp_send tcp_ok : Bool} {req_id n : ℕ} {frame : Bytes}
    {out : Sent}
    → Transported (drained r reals silences) tcp_send tcp_ok req_id frame n out
    → Transported r tcp_send tcp_ok req_id frame n out
as_drained r reals silences (by_tcp g l o) = by_tcp g l o
as_drained r reals silences (tcp_failed g l o) = tcp_failed g l o
as_drained r reals silences (by_udp m o) = by_udp m o
as_drained r reals silences (no_socket m o) = no_socket m o

-- With at most 6400 bytes in the sender's buffer, a round takes up all the audio that waits, or
-- only the last 3200 bytes of more than 6400; it puts the first 160 of them, or silence when there
-- are fewer, behind an RTP header with the sender's sequence number and timestamp, and hands that
-- frame to the transport that carries more media; the bytes it did not take stay buffered.
pub audio_round-IsRound :
    (ssrc req_id : ℕ) (tcp_send tcp_ok : Bool) (r : Receiver) (s : Sender)
    → length s.tx_buf ≤ 6400
    → let out = audio_round ssrc req_id tcp_send tcp_ok (r, s) in
      IsRound ssrc req_id tcp_send tcp_ok r s out.0.0 out.0.1 out.1
unfolding audio_round
audio_round-IsRound ssrc req_id tcp_send tcp_ok r s h =
    let buffer = fill r.backchannel_queue s.tx_buf in
    elim (Bool-cases (leb 160 (length buffer))) [
      | inl enough ↦
          let first = take 160 buffer in
          let size : length first ≡ 160 =
            omega (arith, leb→le 160 (length buffer) enough, length-take 160 buffer) in
          let x =
            transmit-IsHandedOn
              (drained r (r.audio_tx_real_count + 1) (r.audio_tx_silence_count + 0)) tcp_send tcp_ok
              req_id (tx_header s.seq s.ts ssrc ++ first) in
          rw (enough, take_whole 160 first size)
            (record {
              buffer = buffer;
              audio = first;
              reals = 1;
              silences = 0;
              buffered = fill-Buffered r.backchannel_queue s.tx_buf h;
              spoken = real first (drop 160 buffer) (sym (take-append-drop 160 buffer)) size;
              transported = as_drained r _ _ x.how;
              emptied_queue = x.queue;
              real_count = x.reals;
              silence_count = x.silences;
              next_seq = refl;
              next_ts = refl;
            })
      | inr short ↦
          let x =
            transmit-IsHandedOn
              (drained r (r.audio_tx_real_count + 0) (r.audio_tx_silence_count + 1)) tcp_send tcp_ok
              req_id (tx_header s.seq s.ts ssrc ++ silence) in
          rw (short, take_whole 160 silence (length-replicate {A = ℕ} 160 0xd5))
            (record {
              buffer = buffer;
              audio = silence;
              reals = 0;
              silences = 1;
              buffered = fill-Buffered r.backchannel_queue s.tx_buf h;
              spoken = silent (not_leb 160 (length buffer) short);
              transported = as_drained r _ _ x.how;
              emptied_queue = x.queue;
              real_count = x.reals;
              silence_count = x.silences;
              next_seq = refl;
              next_ts = refl;
            })
    ]
