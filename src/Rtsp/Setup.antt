-- ===== src/Rtsp/Setup.antt =====
-- SETUP requests: the transport header, and what it makes of the client and the server.
pub mod Tracks
pub mod Clients
use comelit_man.Rtsp.State.{TcpClient, Server}
use comelit_man.Prelude.{
  decimal, Text, ℕ, ◌+◌, Bool, not, ◌&&◌, ◌||◌, some, List, [], ◌∷◌, ◌++◌, if◌then◌else◌, Result,
  ◌>>=◌, ok,
}
use comelit_man.Texts.{contains, split_on, behind_first, first_of, int_of}

abbrev pub rtp_avp_tcp : Text
rtp_avp_tcp = b'R' ∷ b'T' ∷ b'P' ∷ b'/' ∷ b'A' ∷ b'V' ∷ b'P' ∷ b'/' ∷ b'T' ∷ b'C' ∷ b'P' ∷ []

abbrev pub interleaved_word : Text
interleaved_word = b'i' ∷ b'n' ∷ b't' ∷ b'e' ∷ b'r' ∷ b'l' ∷ b'e' ∷ b'a' ∷ b'v' ∷ b'e' ∷ b'd' ∷ []

abbrev pub client_port_word : Text
client_port_word = b'c' ∷ b'l' ∷ b'i' ∷ b'e' ∷ b'n' ∷ b't' ∷ b'_' ∷ b'p' ∷ b'o' ∷ b'r' ∷ b't' ∷ []

abbrev pub backchannel_word : Text
backchannel_word = b'b' ∷ b'a' ∷ b'c' ∷ b'k' ∷ b'c' ∷ b'h' ∷ b'a' ∷ b'n' ∷ b'n' ∷ b'e' ∷ b'l' ∷ []

abbrev pub audio_path : Text
audio_path = b'/' ∷ b'a' ∷ b'u' ∷ b'd' ∷ b'i' ∷ b'o' ∷ []

abbrev pub track2_word : Text
track2_word = b't' ∷ b'r' ∷ b'a' ∷ b'c' ∷ b'k' ∷ b'2' ∷ []

abbrev pub tcp_answer : Text
tcp_answer =
    b'T' ∷ b'r' ∷ b'a' ∷ b'n' ∷ b's' ∷ b'p' ∷ b'o' ∷ b'r' ∷ b't' ∷ b':' ∷ b' ' ∷ b'R' ∷ b'T' ∷ b'P'
    ∷ b'/' ∷ b'A' ∷ b'V' ∷ b'P' ∷ b'/' ∷ b'T' ∷ b'C' ∷ b'P' ∷ b';' ∷ b'u' ∷ b'n' ∷ b'i' ∷ b'c'
    ∷ b'a' ∷ b's' ∷ b't' ∷ b';' ∷ b'i' ∷ b'n' ∷ b't' ∷ b'e' ∷ b'r' ∷ b'l' ∷ b'e' ∷ b'a' ∷ b'v'
    ∷ b'e' ∷ b'd' ∷ b'=' ∷ []

abbrev pub udp_answer : Text
udp_answer =
    b'T' ∷ b'r' ∷ b'a' ∷ b'n' ∷ b's' ∷ b'p' ∷ b'o' ∷ b'r' ∷ b't' ∷ b':' ∷ b' ' ∷ b'R' ∷ b'T' ∷ b'P'
    ∷ b'/' ∷ b'A' ∷ b'V' ∷ b'P' ∷ b';' ∷ b'u' ∷ b'n' ∷ b'i' ∷ b'c' ∷ b'a' ∷ b's' ∷ b't' ∷ b';'
    ∷ b'c' ∷ b'l' ∷ b'i' ∷ b'e' ∷ b'n' ∷ b't' ∷ b'_' ∷ b'p' ∷ b'o' ∷ b'r' ∷ b't' ∷ b'=' ∷ []

abbrev pub server_port_word : Text
server_port_word =
    b';' ∷ b's' ∷ b'e' ∷ b'r' ∷ b'v' ∷ b'e' ∷ b'r' ∷ b'_' ∷ b'p' ∷ b'o' ∷ b'r' ∷ b't' ∷ b'=' ∷ []

unfoldable pub uses_tcp : Text → Bool
unfolding contains
uses_tcp header = contains rtp_avp_tcp header || contains interleaved_word header

abbrev number_behind : Text → Result ℕ
number_behind part = behind_first b'=' part >>= λ range. int_of (first_of (split_on b'-' range))

-- The channel of the last part that names one.
unfoldable pub interleaved_in : ℕ → List Text → Result ℕ
unfolding contains behind_first split_on int_of
interleaved_in channel [] = ok channel
interleaved_in channel (part ∷ parts) =
    (if contains interleaved_word part then number_behind part else ok channel) >>= λ found.
    interleaved_in found parts

-- `_parse_client_port`, the port of the first part that names one.
unfoldable pub client_port_in : List Text → Result ℕ
unfolding contains behind_first split_on int_of
client_port_in [] = ok 0
client_port_in (part ∷ parts) =
    let rest = client_port_in parts in
    if contains client_port_word part then number_behind part else rest

abbrev pub range_from : ℕ → Text
range_from n = decimal n ++ b'-' ∷ decimal (n + 1)

-- The client with the channel of its track.
abbrev pub with_channel : Bool → Bool → ℕ → TcpClient → TcpClient
with_channel is_audio is_backchannel ch c =
    if is_backchannel
    then record c { backchannel_ch = some ch }
    else if is_audio
    then record c { audio_ch = some ch }
    else record c { video_ch = some ch }

-- The server's own two UDP ports.
pub record ServerPorts : Type 0 where
  pub video : ℕ
  pub audio : ℕ

abbrev with_port : Bool → Text → ℕ → Server → Server
with_port is_audio host port s =
    if is_audio
    then record s { udp_audio_port = port; udp_host = some host }
    else record s { udp_video_port = port; udp_host = some host }

-- `_parse_setup`: the transport line of the answer, the client and the server.
unfoldable pub parse_setup :
    ServerPorts
    → Text
    → Bool
    → TcpClient
    → Text
    → Bool
    → Server
    → Result (Text × TcpClient × Server)
unfolding split_on
parse_setup ports header is_audio c host is_backchannel s =
    if uses_tcp header
    then (interleaved_in 0 (split_on b';' header) >>= λ ch.
        ok (tcp_answer ++ range_from ch, with_channel is_audio is_backchannel ch c, s))
    else (client_port_in (split_on b';' header) >>= λ port. ok (
      udp_answer
          ++ (range_from port
              ++ (server_port_word ++ range_from (if is_audio then ports.audio else ports.video))),
      c,
      with_port is_audio host port s,
    ))

-- A SETUP request: the track is told from its URL.
unfoldable pub handle_setup :
    ServerPorts → Text → Text → TcpClient → Text → Server → Result (Text × TcpClient × Server)
unfolding contains
handle_setup ports url header c host s =
    let is_backchannel = contains backchannel_word url in
    parse_setup ports header
      (not is_backchannel && (contains audio_path url || contains track2_word url)) c host
      is_backchannel s
