-- ===== src/Rtsp/Requests.antt =====
-- `_read_rtsp_request`: a request's text, its lines and its headers.
pub mod Laws
use comelit_man.Prelude.{Text, Option, none, some, List, [], ◌∷◌}
use comelit_man.Dict.{lookup, insert}
use comelit_man.Texts.{strip, split_first, lower, words, split_crlf, not_blank}

pub record Request : Type 0 where
  pub method : Text
  pub url : Text
  pub headers : List (Text × Text)
  pub cseq : Text

abbrev pub end_of_headers : Text
end_of_headers = 13 ∷ 10 ∷ 13 ∷ 10 ∷ []

abbrev pub cseq_word : Text
cseq_word = b'c' ∷ b's' ∷ b'e' ∷ b'q' ∷ []

-- `headers.get(key, default)`
abbrev pub or_else : Text → Option Text → Text
or_else default none = default
or_else default (some value) = value

unfoldable pub header_or : Text → Text → List (Text × Text) → Text
unfolding lookup
header_or key default headers = or_else default (lookup key headers)

abbrev pub add_split : List (Text × Text) → Option (Text × Text) → List (Text × Text)
add_split headers none = headers
add_split headers (some (name, value)) = insert (lower (strip name)) (strip value) headers

-- One header line; a line without a colon is passed over.
unfoldable pub add_header : List (Text × Text) → Text → List (Text × Text)
unfolding split_first insert lower strip
add_header headers line = add_split headers (split_first b':' line)

unfoldable pub add_headers : List (Text × Text) → List Text → List (Text × Text)
unfolding add_header
add_headers headers [] = headers
add_headers headers (line ∷ lines) = add_headers (add_header headers line) lines

abbrev pub request_of : List Text → List (Text × Text) → Option Request
request_of [] headers = none
request_of (method ∷ []) headers = none
request_of (method ∷ url ∷ more) headers = some (record {
  method = method;
  url = url;
  headers = headers;
  cseq = header_or cseq_word (b'1' ∷ []) headers;
})

abbrev pub request_in : List Text → Option Request
request_in [] = none
request_in (line ∷ lines) = request_of (words line) (add_headers [] lines)

-- The request that the text up to the end of its headers holds, and all of the text behind them.
unfoldable pub parse_request : Text → Option Request
unfolding not_blank split_crlf words add_headers header_or
parse_request text = request_in (not_blank (split_crlf text))
