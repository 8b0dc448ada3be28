-- ===== src/Rtsp/Handler.antt =====
-- `_handle_client`: the requests of one connection, from its first to the end of its stream. The
-- reader's events are a script: a chunk (an empty one at the end of the stream), or 30 seconds
-- without one; behind the last event the connection is lost. What other tasks do to the server
-- meanwhile is not part of a run.
pub mod Streaming
pub mod Laws
use comelit_man.Prelude.{
  decimal, Text, ℕ, Bool, true, false, Option, none, some, List, [], ◌∷◌, ◌++◌, ◌==◌, if◌then◌else◌,
  length, Result, err, ok,
}
use comelit_man.Rtsp.State.{Writer, TcpClient, Server}
use comelit_man.Rtsp.Session.{write_to, prime_client, play}
use comelit_man.Rtsp.Sdp.{build_sdp}
use comelit_man.Rtsp.Requests.{Request, end_of_headers, header_or, parse_request}
use comelit_man.Rtsp.Setup.{backchannel_word, ServerPorts, handle_setup}
use comelit_man.Rtsp.Stream.{Reading, read_chunk}
use comelit_man.Bytes.{Bytes, same_bytes}
use comelit_man.Texts.{contains, lower, utf8}

abbrev pub ok_line : Text
ok_line =
    b'R' ∷ b'T' ∷ b'S' ∷ b'P' ∷ b'/' ∷ b'1' ∷ b'.' ∷ b'0' ∷ b' ' ∷ b'2' ∷ b'0' ∷ b'0' ∷ b' ' ∷ b'O'
    ∷ b'K' ∷ 13 ∷ 10 ∷ b'C' ∷ b'S' ∷ b'e' ∷ b'q' ∷ b':' ∷ b' ' ∷ []

abbrev pub not_allowed : Text
not_allowed =
    b'R' ∷ b'T' ∷ b'S' ∷ b'P' ∷ b'/' ∷ b'1' ∷ b'.' ∷ b'0' ∷ b' ' ∷ b'4' ∷ b'0' ∷ b'5' ∷ b' ' ∷ b'M'
    ∷ b'e' ∷ b't' ∷ b'h' ∷ b'o' ∷ b'd' ∷ b' ' ∷ b'N' ∷ b'o' ∷ b't' ∷ b' ' ∷ b'A' ∷ b'l' ∷ b'l'
    ∷ b'o' ∷ b'w' ∷ b'e' ∷ b'd' ∷ 13 ∷ 10 ∷ b'C' ∷ b'S' ∷ b'e' ∷ b'q' ∷ b':' ∷ b' ' ∷ []

abbrev pub crlf : Text
crlf = 13 ∷ 10 ∷ []

abbrev pub public_line : Text
public_line =
    b'P' ∷ b'u' ∷ b'b' ∷ b'l' ∷ b'i' ∷ b'c' ∷ b':' ∷ b' ' ∷ b'O' ∷ b'P' ∷ b'T' ∷ b'I' ∷ b'O' ∷ b'N'
    ∷ b'S' ∷ b',' ∷ b' ' ∷ b'D' ∷ b'E' ∷ b'S' ∷ b'C' ∷ b'R' ∷ b'I' ∷ b'B' ∷ b'E' ∷ b',' ∷ b' '
    ∷ b'S' ∷ b'E' ∷ b'T' ∷ b'U' ∷ b'P' ∷ b',' ∷ b' ' ∷ b'P' ∷ b'L' ∷ b'A' ∷ b'Y' ∷ b',' ∷ b' '
    ∷ b'T' ∷ b'E' ∷ b'A' ∷ b'R' ∷ b'D' ∷ b'O' ∷ b'W' ∷ b'N' ∷ 13 ∷ 10 ∷ []

abbrev pub sdp_line : Text
sdp_line =
    b'C' ∷ b'o' ∷ b'n' ∷ b't' ∷ b'e' ∷ b'n' ∷ b't' ∷ b'-' ∷ b'T' ∷ b'y' ∷ b'p' ∷ b'e' ∷ b':' ∷ b' '
    ∷ b'a' ∷ b'p' ∷ b'p' ∷ b'l' ∷ b'i' ∷ b'c' ∷ b'a' ∷ b't' ∷ b'i' ∷ b'o' ∷ b'n' ∷ b'/' ∷ b's'
    ∷ b'd' ∷ b'p' ∷ 13 ∷ 10 ∷ b'C' ∷ b'o' ∷ b'n' ∷ b't' ∷ b'e' ∷ b'n' ∷ b't' ∷ b'-' ∷ b'L' ∷ b'e'
    ∷ b'n' ∷ b'g' ∷ b't' ∷ b'h' ∷ b':' ∷ b' ' ∷ []

abbrev pub session_line : Text
session_line =
    b'S' ∷ b'e' ∷ b's' ∷ b's' ∷ b'i' ∷ b'o' ∷ b'n' ∷ b':' ∷ b' ' ∷ b'8' ∷ b'7' ∷ b'6' ∷ b'5' ∷ b'4'
    ∷ b'3' ∷ b'2' ∷ b'1' ∷ 13 ∷ 10 ∷ []

abbrev pub range_line : Text
range_line =
    b'R' ∷ b'a' ∷ b'n' ∷ b'g' ∷ b'e' ∷ b':' ∷ b' ' ∷ b'n' ∷ b'p' ∷ b't' ∷ b'=' ∷ b'0' ∷ b'.' ∷ b'0'
    ∷ b'0' ∷ b'0' ∷ b'-' ∷ 13 ∷ 10 ∷ []

abbrev pub options : Text
options = b'O' ∷ b'P' ∷ b'T' ∷ b'I' ∷ b'O' ∷ b'N' ∷ b'S' ∷ []

abbrev pub describe : Text
describe = b'D' ∷ b'E' ∷ b'S' ∷ b'C' ∷ b'R' ∷ b'I' ∷ b'B' ∷ b'E' ∷ []

abbrev pub setup : Text
setup = b'S' ∷ b'E' ∷ b'T' ∷ b'U' ∷ b'P' ∷ []

abbrev pub play_word : Text
play_word = b'P' ∷ b'L' ∷ b'A' ∷ b'Y' ∷ []

abbrev pub teardown_word : Text
teardown_word = b'T' ∷ b'E' ∷ b'A' ∷ b'R' ∷ b'D' ∷ b'O' ∷ b'W' ∷ b'N' ∷ []

abbrev pub require_word : Text
require_word = b'r' ∷ b'e' ∷ b'q' ∷ b'u' ∷ b'i' ∷ b'r' ∷ b'e' ∷ []

abbrev pub transport_word : Text
transport_word = b't' ∷ b'r' ∷ b'a' ∷ b'n' ∷ b's' ∷ b'p' ∷ b'o' ∷ b'r' ∷ b't' ∷ []

-- What does not change while a connection is served; `secs` and `frac` are the clock's reading.
pub record Settings : Type 0 where
  pub bind_host : Text
  pub client_host : Text
  pub ports : ServerPorts
  pub secs : ℕ
  pub frac : ℕ
  pub decode : Bytes → Text

pub record Connection : Type 0 where
  pub server : Server
  pub client : TcpClient
  pub registered : Bool

-- The loop goes on, the stream begins, or the connection is over.
pub data Next : Type 0 where
  going playing over : Connection → Next

-- `_send`
abbrev pub answer : Text → Text → Text
answer cseq extra = ok_line ++ (cseq ++ (crlf ++ (extra ++ crlf)))

abbrev pub written : Connection → (Connection → Next) → TcpClient × Bool → Next
written conn next (c, true) = over (record conn { client = c })
written conn next (c, false) = next (record conn { client = c })

-- `writer.write(text.encode())`, and what follows unless it raises.
unfoldable pub write_then : Connection → Text → (Connection → Next) → Next
unfolding write_to utf8
write_then conn text next = written conn next (write_to conn.client.writer conn.client (utf8 text))

unfoldable pub describe_answer : Settings → Server → Request → Text
unfolding build_sdp contains lower header_or decimal
describe_answer settings s req =
    let sdp =
      build_sdp settings.bind_host s
        (contains backchannel_word (lower (header_or require_word [] req.headers))) in
    ok_line
    ++ (req.cseq ++ (crlf ++ (sdp_line ++ (decimal (length sdp) ++ (end_of_headers ++ sdp)))))

unfoldable pub set_up : Connection → Request → Result (Text × TcpClient × Server) → Next
unfolding write_then
set_up conn req (err e) = over conn
set_up conn req (ok (transport, c, s)) =
    write_then (record conn { client = c; server = s })
      (answer req.cseq (session_line ++ (transport ++ crlf))) going

-- The client is registered and primed: the object in the server's list is the connection's own.
unfoldable pub start_playing : Settings → Connection → Next
unfolding play prime_client
start_playing settings conn = playing (record {
  server = play settings.secs settings.frac conn.server conn.client;
  client = (prime_client settings.secs settings.frac conn.server conn.client).1;
  registered = true;
})

unfoldable pub handle_request : Settings → Connection → Request → Next
unfolding write_then describe_answer set_up handle_setup start_playing header_or same_bytes
handle_request settings conn req =
    if same_bytes req.method options
    then write_then conn (answer req.cseq public_line) going
    else if same_bytes req.method describe
    then write_then conn (describe_answer settings conn.server req) going
    else if same_bytes req.method setup
    then set_up conn req (
        handle_setup settings.ports req.url (header_or transport_word [] req.headers) conn.client
          settings.client_host conn.server)
    else if same_bytes req.method play_word
    then write_then conn (answer req.cseq (session_line ++ range_line)) (start_playing settings)
    else if same_bytes req.method teardown_word
    then write_then conn (answer req.cseq session_line) over
    else write_then conn (not_allowed ++ (req.cseq ++ end_of_headers)) going

-- `_read_client_stream` on the events that are left; a timeout only starts the next wait.
unfoldable pub stream_events : Option ℕ → Reading → List (Option Bytes) → Server
unfolding read_chunk
stream_events own r [] = r.server
stream_events own r (none ∷ events) = stream_events own r events
stream_events own r (some [] ∷ events) = r.server
stream_events own r (some (b ∷ chunk) ∷ events) =
    let r' = read_chunk own r (b ∷ chunk) in
    let more = stream_events own r' events in if r'.ended then r'.server else more

unfoldable pub stream : Connection → List (Option Bytes) → Connection
unfolding stream_events
stream conn events = record conn {
  server =
      stream_events conn.client.backchannel_ch
        (record { server = conn.server; buf = []; ended = false }) events;
}

abbrev pub handle_parsed : Settings → Connection → Option Request → Next
handle_parsed settings conn none = over conn
handle_parsed settings conn (some req) = handle_request settings conn req

-- The bytes that have come so far are a request once they hold the end of its headers.
unfoldable pub receive : Settings → Connection → Bytes → Option Next
unfolding handle_request parse_request contains
receive settings conn raw =
    if contains end_of_headers raw
    then some (handle_parsed settings conn (parse_request (settings.decode raw)))
    else none

-- The loop; `raw` is what has come of the request that is being read.
unfoldable pub serve : Settings → Bytes → Connection → List (Option Bytes) → Connection
unfolding receive stream
serve settings raw conn [] = conn
serve settings raw conn (none ∷ events) = conn
serve settings raw conn (some [] ∷ events) = conn
serve settings raw conn (some (b ∷ chunk) ∷ events) =
    elim (receive settings conn (raw ++ b ∷ chunk)) [
      | none ↦ serve settings (raw ++ b ∷ chunk) conn events
      | some next ↦ elim next [
        | going conn' ↦ serve settings [] conn' events
        | playing conn' ↦ stream conn' events
        | over conn' ↦ conn'
      ]
    ]

-- `active_clients.remove(client)`, with the `ValueError` suppressed.
unfoldable pub remove_client : ℕ → List TcpClient → List TcpClient
remove_client id [] = []
remove_client id (c ∷ cs) = let rest = remove_client id cs in if c.id == id then cs else c ∷ rest

unfoldable pub release : Connection → Server
unfolding remove_client
release conn =
    if conn.registered
    then record conn.server {
      active_clients = remove_client conn.client.id conn.server.active_clients;
    }
    else conn.server

abbrev pub connected : ℕ → Writer → TcpClient
connected id writer = record {
  id = id;
  writer = writer;
  video_ch = none;
  audio_ch = none;
  backchannel_ch = none;
  written = [];
}

unfoldable pub handle_client : Settings → ℕ → Writer → Server → List (Option Bytes) → Server
unfolding serve release
handle_client settings id writer s events = release (
    serve settings [] (record { server = s; client = connected id writer; registered = false })
      events)
