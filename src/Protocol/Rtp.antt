-- ===== src/Protocol/Rtp.antt =====
-- `decode_rtp_header` of protocol.py.
use comelit_man.Prelude.{
  ℕ, ◌+◌, ◌/◌, ◌%◌, Bool, ltb, ◌==◌, if◌then◌else◌, length, drop, Result, value_error, ok, err,
}
use comelit_man.Bytes.{Bytes, byte_at, be16_at, be32_at}
use comelit_man.Protocol.Header.{header_size}

pub record RtpHeader : Type 0 where
  pub version : ℕ
  pub padding : Bool
  pub extension : Bool
  pub csrc_count : ℕ
  pub marker : Bool
  pub payload_type : ℕ
  pub sequence : ℕ
  pub timestamp : ℕ
  pub ssrc : ℕ

-- The header fields of an RTP packet of at least 12 bytes.
unfoldable pub rtp_fields : Bytes → RtpHeader
rtp_fields rtp =
    let byte0 = byte_at rtp 0 in
    let byte1 = byte_at rtp 1 in
    record {
      version = byte0 / 64 % 4;
      padding = byte0 / 32 % 2 == 1;
      extension = byte0 / 16 % 2 == 1;
      csrc_count = byte0 % 16;
      marker = byte1 / 128 % 2 == 1;
      payload_type = byte1 % 128;
      sequence = be16_at rtp 2;
      timestamp = be32_at rtp 4;
      ssrc = be32_at rtp 8;
    }

-- Strips the ICONA header and returns the RTP header with the payload.
unfoldable pub decode_rtp_header : Bytes → Result (RtpHeader × Bytes)
unfolding rtp_fields
decode_rtp_header d =
    if ltb (length d) (header_size + 12)
    then err value_error
    else let rtp = drop header_size d in ok (rtp_fields rtp, drop 12 rtp)
