-- ===== src/Tests/Requests.antt =====
-- Requests and connections of the RTSP server at concrete inputs.
use comelit_man.Prelude.{Text, ◌≡◌, refl, Option, none, some, List, [], ◌∷◌, take, drop}
use comelit_man.Texts.{strip_left, strip_right, strip}
use comelit_man.Rtsp.Requests.Laws.{
  print_request, IsHeader, IsLine, header_dict, parse_request-print_request, cseq_header,
  parse_request_pipelined,
}
use comelit_man.Rtsp.Requests.{Request, cseq_word, header_or, parse_request}
use comelit_man.Rtsp.Handler.{Settings, handle_client}
use comelit_man.Rtsp.State.{TcpClient, Server, init, alive}
use comelit_man.Bytes.{Bytes}
use comelit_man.Texts.Laws.{No}
use comelit_man.Rtsp.Handler.Laws.{handle_client-active_clients}

abbrev options_word : Text
options_word = b'O' ∷ b'P' ∷ b'T' ∷ b'I' ∷ b'O' ∷ b'N' ∷ b'S' ∷ []

abbrev play_request_word : Text
play_request_word = b'P' ∷ b'L' ∷ b'A' ∷ b'Y' ∷ []

abbrev stream_url : Text
stream_url =
    b'r' ∷ b't' ∷ b's' ∷ b'p' ∷ b':' ∷ b'/' ∷ b'/' ∷ b'h' ∷ b'/' ∷ b'i' ∷ b'n' ∷ b't' ∷ b'e' ∷ b'r'
    ∷ b'c' ∷ b'o' ∷ b'm' ∷ []

abbrev one : Text
one = b'1' ∷ []

abbrev two : Text
two = b'2' ∷ []

numbered-IsHeader : (n : Text) → No 13 n → strip n ≡ n → IsHeader (cseq_header, n)
unfolding strip strip_left strip_right
numbered-IsHeader n h k = record {
  name_colon = (refl, (refl, (refl, (refl, tt))));
  name_return = (refl, (refl, (refl, (refl, tt))));
  value_return = h;
  name_strip = refl;
  value_strip = k;
}

one-IsHeader : IsHeader (cseq_header, one)
unfolding strip strip_left strip_right
one-IsHeader = numbered-IsHeader one (refl, tt) refl

two-IsHeader : IsHeader (cseq_header, two)
unfolding strip strip_left strip_right
two-IsHeader = numbered-IsHeader two (refl, tt) refl

options-IsLine : IsLine options_word stream_url
options-IsLine = record {
  method_word = (refl, (refl, (refl, (refl, (refl, (refl, (refl, (refl, tt))))))));
  url_word = (
    refl,
    (
      refl,
      (
        refl,
        (
          refl,
          (
            refl,
            (
              refl,
              (
                refl,
                (
                  refl,
                  (
                    refl,
                    (refl, (refl, (refl, (refl, (refl, (refl, (refl, (refl, (refl, tt))))))))),
                  ),
                ),
              ),
            ),
          ),
        ),
      ),
    ),
  );
  method_return = (refl, (refl, (refl, (refl, (refl, (refl, (refl, tt)))))));
  url_return = (
    refl,
    (
      refl,
      (
        refl,
        (
          refl,
          (
            refl,
            (
              refl,
              (
                refl,
                (refl, (refl, (refl, (refl, (refl, (refl, (refl, (refl, (refl, (refl, tt)))))))))),
              ),
            ),
          ),
        ),
      ),
    ),
  );
}

play-IsLine : IsLine play_request_word stream_url
play-IsLine = record {
  method_word = (refl, (refl, (refl, (refl, (refl, tt)))));
  url_word = (
    refl,
    (
      refl,
      (
        refl,
        (
          refl,
          (
            refl,
            (
              refl,
              (
                refl,
                (
                  refl,
                  (
                    refl,
                    (refl, (refl, (refl, (refl, (refl, (refl, (refl, (refl, (refl, tt))))))))),
                  ),
                ),
              ),
            ),
          ),
        ),
      ),
    ),
  );
  method_return = (refl, (refl, (refl, (refl, tt))));
  url_return = (
    refl,
    (
      refl,
      (
        refl,
        (
          refl,
          (
            refl,
            (
              refl,
              (
                refl,
                (refl, (refl, (refl, (refl, (refl, (refl, (refl, (refl, (refl, (refl, tt)))))))))),
              ),
            ),
          ),
        ),
      ),
    ),
  );
}

parse_request-print_request_example :
    parse_request (print_request options_word stream_url ((cseq_header, one) ∷ []) [])
    ≡ some (record {
      method = options_word;
      url = stream_url;
      headers = header_dict [] ((cseq_header, one) ∷ []);
      cseq = header_or cseq_word (b'1' ∷ []) (header_dict [] ((cseq_header, one) ∷ []));
    })
parse_request-print_request_example =
    parse_request-print_request options_word stream_url ((cseq_header, one) ∷ []) options-IsLine
      (one-IsHeader, tt)

parse_request_pipelined_example :
    (r : Request) × (parse_request (
        print_request options_word stream_url
          ((cseq_header, one) ∷ [])
          (print_request play_request_word stream_url ((cseq_header, two) ∷ []) []))
      ≡ some r)
    × (r.method ≡ options_word)
    × (r.url ≡ stream_url)
    × (r.cseq ≡ two)
parse_request_pipelined_example =
    parse_request_pipelined options_word stream_url play_request_word stream_url two
      ((cseq_header, one) ∷ []) options-IsLine play-IsLine (one-IsHeader, tt) two-IsHeader

abbrev settings : Settings
settings = record {
  bind_host = b'h' ∷ [];
  client_host = b'c' ∷ [];
  ports = record { video = 6000; audio = 6002 };
  secs = 1;
  frac = 2;
  decode = λ d. d;
}

abbrev listed : TcpClient
listed = record {
  id = 1;
  writer = alive;
  video_ch = some 0;
  audio_ch = some 2;
  backchannel_ch = none;
  written = [];
}

abbrev one_listed : Server
one_listed = record init { active_clients = listed ∷ [] }

-- OPTIONS, and then PLAY in two chunks.
abbrev events : List (Option Bytes)
events =
    some (print_request options_word stream_url ((cseq_header, one) ∷ []) [])
    ∷ some (take 9 (print_request play_request_word stream_url ((cseq_header, two) ∷ []) []))
    ∷ some (drop 9 (print_request play_request_word stream_url ((cseq_header, two) ∷ []) []))
    ∷ none
    ∷ []

handle_client-active_clients_example :
    (handle_client settings 2 alive one_listed events).active_clients ≡ one_listed.active_clients
handle_client-active_clients_example =
    handle_client-active_clients settings 2 alive one_listed events (refl, tt)
