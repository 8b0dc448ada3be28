-- ===== src/Rtsp/Sdp.antt =====
-- `_build_sdp`: the session description that a DESCRIBE is answered with.
use comelit_man.Prelude.{
  Text, ℕ, ◌+◌, ◌-◌, ◌*◌, ◌/◌, ◌%◌, Bool, [], ◌∷◌, ◌++◌, ltb, ◌==◌, if◌then◌else◌, take, drop,
}
use comelit_man.Bytes.{Bytes}
use comelit_man.Rtsp.State.{Server}

abbrev pub sdp_origin : Text
sdp_origin =
    b'v' ∷ b'=' ∷ b'0' ∷ 13 ∷ 10 ∷ b'o' ∷ b'=' ∷ b'-' ∷ b' ' ∷ b'0' ∷ b' ' ∷ b'0' ∷ b' ' ∷ b'I'
    ∷ b'N' ∷ b' ' ∷ b'I' ∷ b'P' ∷ b'4' ∷ b' ' ∷ []

abbrev pub sdp_video : Text
sdp_video =
    13 ∷ 10 ∷ b's' ∷ b'=' ∷ b'C' ∷ b'o' ∷ b'm' ∷ b'e' ∷ b'l' ∷ b'i' ∷ b't' ∷ b' ' ∷ b'I' ∷ b'n'
    ∷ b't' ∷ b'e' ∷ b'r' ∷ b'c' ∷ b'o' ∷ b'm' ∷ 13 ∷ 10 ∷ b't' ∷ b'=' ∷ b'0' ∷ b' ' ∷ b'0' ∷ 13 ∷ 10
    ∷ b'm' ∷ b'=' ∷ b'v' ∷ b'i' ∷ b'd' ∷ b'e' ∷ b'o' ∷ b' ' ∷ b'0' ∷ b' ' ∷ b'R' ∷ b'T' ∷ b'P'
    ∷ b'/' ∷ b'A' ∷ b'V' ∷ b'P' ∷ b' ' ∷ b'9' ∷ b'6' ∷ 13 ∷ 10 ∷ b'c' ∷ b'=' ∷ b'I' ∷ b'N' ∷ b' '
    ∷ b'I' ∷ b'P' ∷ b'4' ∷ b' ' ∷ b'0' ∷ b'.' ∷ b'0' ∷ b'.' ∷ b'0' ∷ b'.' ∷ b'0' ∷ 13 ∷ 10 ∷ b'a'
    ∷ b'=' ∷ b'r' ∷ b't' ∷ b'p' ∷ b'm' ∷ b'a' ∷ b'p' ∷ b':' ∷ b'9' ∷ b'6' ∷ b' ' ∷ b'H' ∷ b'2'
    ∷ b'6' ∷ b'4' ∷ b'/' ∷ b'9' ∷ b'0' ∷ b'0' ∷ b'0' ∷ b'0' ∷ 13 ∷ 10 ∷ b'a' ∷ b'=' ∷ b'f' ∷ b'm'
    ∷ b't' ∷ b'p' ∷ b':' ∷ b'9' ∷ b'6' ∷ b' ' ∷ b'p' ∷ b'a' ∷ b'c' ∷ b'k' ∷ b'e' ∷ b't' ∷ b'i'
    ∷ b'z' ∷ b'a' ∷ b't' ∷ b'i' ∷ b'o' ∷ b'n' ∷ b'-' ∷ b'm' ∷ b'o' ∷ b'd' ∷ b'e' ∷ b'=' ∷ b'1'
    ∷ b';' ∷ b'p' ∷ b'r' ∷ b'o' ∷ b'f' ∷ b'i' ∷ b'l' ∷ b'e' ∷ b'-' ∷ b'l' ∷ b'e' ∷ b'v' ∷ b'e'
    ∷ b'l' ∷ b'-' ∷ b'i' ∷ b'd' ∷ b'=' ∷ []

abbrev pub sdp_parameter_sets : Text
sdp_parameter_sets =
    b';' ∷ b's' ∷ b'p' ∷ b'r' ∷ b'o' ∷ b'p' ∷ b'-' ∷ b'p' ∷ b'a' ∷ b'r' ∷ b'a' ∷ b'm' ∷ b'e' ∷ b't'
    ∷ b'e' ∷ b'r' ∷ b'-' ∷ b's' ∷ b'e' ∷ b't' ∷ b's' ∷ b'=' ∷ []

abbrev pub sdp_audio : Text
sdp_audio =
    13 ∷ 10 ∷ b'a' ∷ b'=' ∷ b'c' ∷ b'o' ∷ b'n' ∷ b't' ∷ b'r' ∷ b'o' ∷ b'l' ∷ b':' ∷ b'v' ∷ b'i'
    ∷ b'd' ∷ b'e' ∷ b'o' ∷ 13 ∷ 10 ∷ b'm' ∷ b'=' ∷ b'a' ∷ b'u' ∷ b'd' ∷ b'i' ∷ b'o' ∷ b' ' ∷ b'0'
    ∷ b' ' ∷ b'R' ∷ b'T' ∷ b'P' ∷ b'/' ∷ b'A' ∷ b'V' ∷ b'P' ∷ b' ' ∷ b'8' ∷ 13 ∷ 10 ∷ b'c' ∷ b'='
    ∷ b'I' ∷ b'N' ∷ b' ' ∷ b'I' ∷ b'P' ∷ b'4' ∷ b' ' ∷ b'0' ∷ b'.' ∷ b'0' ∷ b'.' ∷ b'0' ∷ b'.'
    ∷ b'0' ∷ 13 ∷ 10 ∷ b'a' ∷ b'=' ∷ b'r' ∷ b't' ∷ b'p' ∷ b'm' ∷ b'a' ∷ b'p' ∷ b':' ∷ b'8' ∷ b' '
    ∷ b'P' ∷ b'C' ∷ b'M' ∷ b'A' ∷ b'/' ∷ b'8' ∷ b'0' ∷ b'0' ∷ b'0' ∷ 13 ∷ 10 ∷ b'a' ∷ b'=' ∷ b'c'
    ∷ b'o' ∷ b'n' ∷ b't' ∷ b'r' ∷ b'o' ∷ b'l' ∷ b':' ∷ b'a' ∷ b'u' ∷ b'd' ∷ b'i' ∷ b'o' ∷ 13 ∷ 10
    ∷ []

abbrev pub sdp_backchannel : Text
sdp_backchannel =
    b'm' ∷ b'=' ∷ b'a' ∷ b'u' ∷ b'd' ∷ b'i' ∷ b'o' ∷ b' ' ∷ b'0' ∷ b' ' ∷ b'R' ∷ b'T' ∷ b'P' ∷ b'/'
    ∷ b'A' ∷ b'V' ∷ b'P' ∷ b' ' ∷ b'8' ∷ 13 ∷ 10 ∷ b'c' ∷ b'=' ∷ b'I' ∷ b'N' ∷ b' ' ∷ b'I' ∷ b'P'
    ∷ b'4' ∷ b' ' ∷ b'0' ∷ b'.' ∷ b'0' ∷ b'.' ∷ b'0' ∷ b'.' ∷ b'0' ∷ 13 ∷ 10 ∷ b'a' ∷ b'=' ∷ b'r'
    ∷ b't' ∷ b'p' ∷ b'm' ∷ b'a' ∷ b'p' ∷ b':' ∷ b'8' ∷ b' ' ∷ b'P' ∷ b'C' ∷ b'M' ∷ b'A' ∷ b'/'
    ∷ b'8' ∷ b'0' ∷ b'0' ∷ b'0' ∷ 13 ∷ 10 ∷ b'a' ∷ b'=' ∷ b's' ∷ b'e' ∷ b'n' ∷ b'd' ∷ b'o' ∷ b'n'
    ∷ b'l' ∷ b'y' ∷ 13 ∷ 10 ∷ b'a' ∷ b'=' ∷ b'c' ∷ b'o' ∷ b'n' ∷ b't' ∷ b'r' ∷ b'o' ∷ b'l' ∷ b':'
    ∷ b'b' ∷ b'a' ∷ b'c' ∷ b'k' ∷ b'c' ∷ b'h' ∷ b'a' ∷ b'n' ∷ b'n' ∷ b'e' ∷ b'l' ∷ 13 ∷ 10 ∷ []

abbrev hex_char : ℕ → ℕ
hex_char n = if ltb n 10 then b'0' + n else 87 + n

-- `data.hex()`
unfoldable pub hex : Bytes → Text
hex [] = []
hex (b ∷ bs) = hex_char (b / 16) ∷ hex_char (b % 16) ∷ hex bs

unfoldable pub base64_char : ℕ → ℕ
base64_char n =
    if ltb n 26
    then b'A' + n
    else if ltb n 52
    then 71 + n
    else if ltb n 62
    then n - 4
    else if n == 62
    then b'+'
    else b'/'

-- `base64.b64encode(data).decode()`
unfoldable pub base64 : Bytes → Text
unfolding base64_char
base64 [] = []
base64 (x ∷ []) = base64_char (x / 4) ∷ base64_char (x % 4 * 16) ∷ b'=' ∷ b'=' ∷ []
base64 (x ∷ y ∷ []) =
    base64_char (x / 4) ∷ base64_char (x % 4 * 16 + y / 16) ∷ base64_char (y % 16 * 4) ∷ b'=' ∷ []
base64 (x ∷ y ∷ z ∷ rest) =
    base64_char (x / 4)
    ∷ base64_char (x % 4 * 16 + y / 16)
    ∷ base64_char (y % 16 * 4 + z / 64)
    ∷ base64_char (z % 64)
    ∷ base64 rest

unfoldable pub build_sdp : Text → Server → Bool → Text
unfolding hex base64
build_sdp bind_host s backchannel =
    let media =
      sdp_origin
      ++ (bind_host
          ++ (sdp_video
              ++ (hex (take 3 (drop 1 s.latest_sps))
                  ++ (sdp_parameter_sets
                      ++ (base64 s.latest_sps ++ b',' ∷ base64 s.latest_pps ++ sdp_audio))))) in
    if backchannel then media ++ sdp_backchannel else media
