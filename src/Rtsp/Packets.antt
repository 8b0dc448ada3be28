-- ===== src/Rtsp/Packets.antt =====
-- The packets of rtsp_server.py: RTP, the compound RTCP report, and interleaved framing.
pub mod Laws
use comelit_man.Prelude.{
  ℕ, ◌+◌, ◌-◌, ◌/◌, ◌%◌, ◌^◌, Bool, ◌&&◌, [], ◌∷◌, ◌++◌, ltb, if◌then◌else◌, length, replicate,
  Result, ◌>>=◌, ◌>>◌, struct_error, ok, err,
}
use comelit_man.Bytes.{Bytes, be16, be32, pack_be16, pack_be32}

-- `(0x80 if marker else 0x00) | (pt & 0x7F)`; the two parts share no bit.
abbrev pub second_byte : ℕ → Bool → ℕ
second_byte pt marker = (if marker then 0x80 else 0x00) + pt % 128

abbrev pub rtp_bytes : ℕ → ℕ → ℕ → ℕ → Bytes → Bool → Bytes
rtp_bytes pt seq ts ssrc payload marker =
    0x80 ∷ second_byte pt marker ∷ (be16 seq ++ (be32 ts ++ (be32 ssrc ++ payload)))

-- `_build_rtp`; the server keeps `seq` and `ts` in range, so it never raises there.
unfoldable pub build_rtp : ℕ → ℕ → ℕ → ℕ → Bytes → Bool → Result Bytes
unfolding pack_be16 pack_be32
build_rtp pt seq ts ssrc payload marker = do
  s ← pack_be16 seq
  t ← pack_be32 ts
  id ← pack_be32 ssrc
  ok (0x80 ∷ second_byte pt marker ∷ (s ++ (t ++ (id ++ payload))))

-- `comelit@local`
abbrev pub cname : Bytes
cname =
    b'c' ∷ b'o' ∷ b'm' ∷ b'e' ∷ b'l' ∷ b'i' ∷ b't' ∷ b'@' ∷ b'l' ∷ b'o' ∷ b'c' ∷ b'a' ∷ b'l' ∷ []

-- `(-n) & 3`
abbrev pub padding : ℕ → ℕ
padding n = (4 - n % 4) % 4

abbrev pub sdes_chunk : ℕ → Bytes
sdes_chunk ssrc = be32 (ssrc % 2 ^ 32) ++ 1 ∷ length cname ∷ (cname ++ 0x00 ∷ [])

unfoldable pub build_rtcp_sr : ℕ → ℕ → ℕ → ℕ → ℕ → ℕ → Bytes
build_rtcp_sr ssrc ntp_secs ntp_frac rtp_ts pkt_count octet_count =
    let w = λ (v : ℕ). be32 (v % 2 ^ 32) in
    let counts = w rtp_ts ++ (w pkt_count ++ w octet_count) in
    let sr = 0x80 ∷ 200 ∷ (be16 6 ++ (w ssrc ++ (w ntp_secs ++ (w ntp_frac ++ counts)))) in
    let chunk = sdes_chunk ssrc in
    let padded = chunk ++ replicate (padding (length chunk)) 0x00 in
    let sdes = 0x81 ∷ 202 ∷ (be16 (length padded / 4) ++ padded) in sr ++ sdes

-- `struct.pack("!BBH", 0x24, ch, len(pkt)) + pkt`
unfoldable pub interleave : ℕ → Bytes → Result Bytes
interleave ch pkt =
    if ltb ch 256 && ltb (length pkt) (2 ^ 16)
    then ok (0x24 ∷ ch ∷ (be16 (length pkt) ++ pkt))
    else err struct_error
