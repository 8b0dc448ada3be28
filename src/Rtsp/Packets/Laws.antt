-- ===== src/Rtsp/Packets/Laws.antt =====
-- RTP packets are read back by `decode_rtp_header`; the RTCP report is well formed.
use comelit_man.Prelude.{
  ℕ, ◌-◌, ◌/◌, ◌%◌, ◌^◌, ◌<◌, ◌≡◌, refl, ap, Bool, true, false, ◌++◌, arith, le→ltb, length,
  length-append, drop_append_length, ok,
}
use comelit_man.Bytes.{Bytes, unpack_be16, unpack_be32}
use comelit_man.Bytes.Laws.{pack_be16-ok, pack_be32-ok}
use comelit_man.Protocol.Rtp.{RtpHeader, rtp_fields, decode_rtp_header}
use comelit_man.Rtsp.Packets.{rtp_bytes, build_rtp, build_rtcp_sr}

pub build_rtp-ok :
    (pt seq ts ssrc : ℕ) (payload : Bytes) (marker : Bool)
    → seq < 2 ^ 16
    → ts < 2 ^ 32
    → ssrc < 2 ^ 32
    → build_rtp pt seq ts ssrc payload marker ≡ ok (rtp_bytes pt seq ts ssrc payload marker)
unfolding build_rtp
build_rtp-ok pt seq ts ssrc payload marker hs ht hi =
    rw (pack_be16-ok seq hs, pack_be32-ok ts ht, pack_be32-ok ssrc hi)

-- The header that `_build_rtp` writes: version 2 and no padding, extension or sources.
abbrev pub plain_header : ℕ → ℕ → ℕ → ℕ → Bool → RtpHeader
plain_header pt seq ts ssrc marker = record {
  version = 2;
  padding = false;
  extension = false;
  csrc_count = 0;
  marker = marker;
  payload_type = pt;
  sequence = seq;
  timestamp = ts;
  ssrc = ssrc;
}

build_rtp_inversion :
    (pt seq ts ssrc : ℕ) (payload : Bytes) (marker : Bool) {pkt : Bytes}
    → build_rtp pt seq ts ssrc payload marker ≡ ok pkt
    → (seq < 2 ^ 16)
      × (ts < 2 ^ 32)
      × (ssrc < 2 ^ 32)
      × (pkt ≡ rtp_bytes pt seq ts ssrc payload marker)
unfolding build_rtp
build_rtp_inversion pt seq ts ssrc payload marker e =
    (ground arith, ground arith, ground arith, ground arith)

rtp_fields-rtp_bytes :
    (pt seq ts ssrc : ℕ) (payload : Bytes) (marker : Bool)
    → pt < 128
    → seq < 2 ^ 16
    → ts < 2 ^ 32
    → ssrc < 2 ^ 32
    → rtp_fields (rtp_bytes pt seq ts ssrc payload marker) ≡ plain_header pt seq ts ssrc marker
unfolding decode_rtp_header
rtp_fields-rtp_bytes pt seq ts ssrc payload true hp hs ht hi = ground arith
rtp_fields-rtp_bytes pt seq ts ssrc payload false hp hs ht hi = ground arith

-- A packet that `_build_rtp` returns, behind any 8 bytes, is decoded to its own fields and
-- payload.
pub decode-build_rtp :
    (icona : Bytes) (pt seq ts ssrc : ℕ) (payload : Bytes) (marker : Bool) {pkt : Bytes}
    → length icona ≡ 8
    → pt < 128
    → build_rtp pt seq ts ssrc payload marker ≡ ok pkt
    → decode_rtp_header (icona ++ pkt) ≡ ok (plain_header pt seq ts ssrc marker, payload)
unfolding build_rtp decode_rtp_header
decode-build_rtp icona pt seq ts ssrc payload marker h hp e =
    let (hs, ht, hi, shape) = build_rtp_inversion pt seq ts ssrc payload marker e in
    rw (
      shape,
      drop_append_length 8 icona (rtp_bytes pt seq ts ssrc payload marker) h,
      rtp_fields-rtp_bytes pt seq ts ssrc payload marker hp hs ht hi,
      le→ltb (length (icona ++ rtp_bytes pt seq ts ssrc payload marker)) 20
          (omega (arith, h, length-append icona (rtp_bytes pt seq ts ssrc payload marker))),
    )

-- The compound report has 52 bytes, in whole words; its two length fields count the words of the
-- report and of the description behind their first words.
pub rtcp_sr_layout :
    (ssrc secs frac ts pkts octets : ℕ)
    → let sr = build_rtcp_sr ssrc secs frac ts pkts octets in
      (length sr ≡ 52)
      × (unpack_be16 sr 2 ≡ ok (28 / 4 - 1))
      × (unpack_be16 sr 30 ≡ ok (24 / 4 - 1))
      × (unpack_be32 sr 16 ≡ ok (ts % 2 ^ 32))
      × (unpack_be32 sr 20 ≡ ok (pkts % 2 ^ 32))
unfolding build_rtcp_sr unpack_be16 unpack_be32
rtcp_sr_layout ssrc secs frac ts pkts octets =
    (refl, refl, refl, ap ok (omega arith), ap ok (omega arith))
