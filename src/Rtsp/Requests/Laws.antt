-- ===== src/Rtsp/Requests/Laws.antt =====
-- Printed requests read back.
use comelit_man.Prelude.{
  Text, ℕ, ◌≡◌, refl, ap, ◌∙◌, false, some, List, [], ◌∷◌, ◌++◌, map, ◌==◌, All, All-append,
}
use comelit_man.Dict.{insert}
use comelit_man.Rtsp.Requests.{
  Request, cseq_word, or_else, header_or, add_header, add_headers, request_of, request_in,
  parse_request,
}
use comelit_man.Texts.Laws.{
  No, text_lines, text_lines-append, text_lines_blank, IsWord, words-append, split_first-append,
  strip_space,
}
use comelit_man.Texts.{strip, lower, words_from, words, blank, split_crlf, not_blank}
use comelit_man.Dict.Laws.{lookup-insert}

abbrev pub version : Text
version = b'R' ∷ b'T' ∷ b'S' ∷ b'P' ∷ b'/' ∷ b'1' ∷ b'.' ∷ b'0' ∷ []

unfoldable pub request_line : Text → Text → Text
request_line method url = method ++ b' ' ∷ (url ++ b' ' ∷ version)

unfoldable pub print_headers : List (Text × Text) → Text → Text
print_headers [] rest = 13 ∷ 10 ∷ rest
print_headers ((name, value) ∷ headers) rest =
    (name ++ b':' ∷ b' ' ∷ value) ++ 13 ∷ 10 ∷ print_headers headers rest

-- A request in front of whatever follows it.
unfoldable pub print_request : Text → Text → List (Text × Text) → Text → Text
unfolding request_line print_headers
print_request method url headers rest =
    request_line method url ++ 13 ∷ 10 ∷ print_headers headers rest

pub record IsHeader (h : Text × Text) : Type 0 where
  pub name_colon : No b':' h.0
  pub name_return : No 13 h.0
  pub value_return : No 13 h.1
  pub name_strip : strip h.0 ≡ h.0
  pub value_strip : strip h.1 ≡ h.1

pub record IsLine (method url : Text) : Type 0 where
  pub method_word : IsWord method
  pub url_word : IsWord url
  pub method_return : No 13 method
  pub url_return : No 13 url

header_line : Text × Text → Text
header_line (name, value) = name ++ b':' ∷ b' ' ∷ value

No-append : (sep : ℕ) (s t : Text) → No sep s → No sep t → No sep (s ++ t)
No-append sep s t h k = All-append (λ c. (c == sep) ≡ false) s t h k

blank-append : (s t : Text) → blank t ≡ false → blank (s ++ t) ≡ false
blank-append [] t h = h
blank-append (c ∷ s) t h = refl

version_return : No 13 (b' ' ∷ version)
version_return = (refl, (refl, (refl, (refl, (refl, (refl, (refl, (refl, (refl, tt)))))))))

print_headers-lines :
    (headers : List (Text × Text)) (rest : Text)
    → All IsHeader headers
    → text_lines (print_headers headers rest) ≡ map header_line headers ++ text_lines rest
unfolding print_headers header_line
print_headers-lines [] rest h = text_lines_blank rest
print_headers-lines ((name, value) ∷ headers) rest h =
    text_lines-append (name ++ b':' ∷ b' ' ∷ value) (print_headers headers rest)
      (No-append 13 name (b':' ∷ b' ' ∷ value) h.0.name_return (refl, (refl, h.0.value_return)))
      (blank-append name (b':' ∷ b' ' ∷ value) refl)
    ∙ ap (◌∷◌ (name ++ b':' ∷ b' ' ∷ value)) (print_headers-lines headers rest h.1)

print_request-lines :
    (method url : Text) (headers : List (Text × Text)) (rest : Text)
    → IsLine method url
    → All IsHeader headers
    → text_lines (print_request method url headers rest)
      ≡ request_line method url ∷ (map header_line headers ++ text_lines rest)
unfolding print_request request_line
print_request-lines method url headers rest l h =
    text_lines-append (method ++ b' ' ∷ (url ++ b' ' ∷ version)) (print_headers headers rest)
      (No-append 13 method (b' ' ∷ (url ++ b' ' ∷ version)) l.method_return
        (refl, No-append 13 url (b' ' ∷ version) l.url_return version_return))
      (blank-append method (b' ' ∷ (url ++ b' ' ∷ version)) refl)
    ∙ ap (◌∷◌ (method ++ b' ' ∷ (url ++ b' ' ∷ version))) (print_headers-lines headers rest h)

-- The dict that the headers fill in their order.
unfoldable pub header_dict : List (Text × Text) → List (Text × Text) → List (Text × Text)
unfolding insert lower
header_dict d [] = d
header_dict d ((name, value) ∷ headers) = header_dict (insert (lower name) value d) headers

add_header-line :
    (d : List (Text × Text)) (h : Text × Text)
    → IsHeader h
    → add_header d (header_line h) ≡ insert (lower h.0) h.1 d
unfolding add_header header_line
add_header-line d (name, value) h =
    rw (split_first-append b':' name (b' ' ∷ value) h.name_colon)
      (rw (h.name_strip, strip_space value, h.value_strip) refl)

add_headers-dict :
    (headers : List (Text × Text)) (lines : List Text) (d : List (Text × Text))
    → All IsHeader headers
    → add_headers d (map header_line headers ++ lines) ≡ add_headers (header_dict d headers) lines
unfolding add_headers header_dict
add_headers-dict [] lines d h = refl
add_headers-dict ((name, value) ∷ headers) lines d h =
    ap (λ e. add_headers e (map header_line headers ++ lines)) (add_header-line d (name, value) h.0)
    ∙ add_headers-dict headers lines (insert (lower name) value d) h.1

words-request_line :
    (method url : Text)
    → IsLine method url
    → words (request_line method url) ≡ method ∷ url ∷ version ∷ []
unfolding request_line words words_from
words-request_line method url l =
    words-append method (url ++ b' ' ∷ version) l.method_word
    ∙ ap (◌∷◌ method) (words-append url version l.url_word)

parse-print :
    (method url : Text) (headers : List (Text × Text)) (rest : Text)
    → IsLine method url
    → All IsHeader headers
    → parse_request (print_request method url headers rest)
      ≡ request_of
          (method ∷ url ∷ version ∷ [])
          (add_headers (header_dict [] headers) (text_lines rest))
unfolding parse_request text_lines
parse-print method url headers rest l h =
    ap request_in (print_request-lines method url headers rest l h)
    ∙ (ap (λ w. request_of w (add_headers [] (map header_line headers ++ text_lines rest)))
          (words-request_line method url l)
        ∙ ap (request_of (method ∷ url ∷ version ∷ []))
            (add_headers-dict headers (text_lines rest) [] h))

-- A request is read back from its text: its method, its URL, its headers with their names in lower
-- case (a later one in place of an earlier one of the same name) and its CSeq, 1 when it has none.
-- The method and the URL are words, no header's name holds a colon, no part a carriage return, and
-- no name or value spaces at its ends.
pub parse_request-print_request :
    (method url : Text) (headers : List (Text × Text))
    → IsLine method url
    → All IsHeader headers
    → parse_request (print_request method url headers [])
      ≡ some (record {
        method = method;
        url = url;
        headers = header_dict [] headers;
        cseq = header_or cseq_word (b'1' ∷ []) (header_dict [] headers);
      })
unfolding add_headers text_lines not_blank split_crlf
parse_request-print_request method url headers l h = parse-print method url headers [] l h

abbrev pub cseq_header : Text
cseq_header = b'C' ∷ b'S' ∷ b'e' ∷ b'q' ∷ []

second_lines :
    (method url n : Text)
    → IsLine method url
    → IsHeader (cseq_header, n)
    → text_lines (print_request method url ((cseq_header, n) ∷ []) [])
      ≡ request_line method url ∷ header_line (cseq_header, n) ∷ []
unfolding text_lines not_blank split_crlf
second_lines method url n l h = print_request-lines method url ((cseq_header, n) ∷ []) [] l (h, tt)

last_cseq :
    (d : List (Text × Text)) (n : Text)
    → IsHeader (cseq_header, n)
    → header_or cseq_word (b'1' ∷ []) (add_header d (header_line (cseq_header, n))) ≡ n
unfolding header_or lower
last_cseq d n h =
    ap (λ e. header_or cseq_word (b'1' ∷ []) e) (add_header-line d (cseq_header, n) h)
    ∙ ap (or_else (b'1' ∷ [])) (lookup-insert cseq_word n d)

-- Two requests that come in one chunk are read as one: with the method and the URL of the first and
-- the CSeq of the second, here the second's first header. The text of each is as for one request.
pub parse_request_pipelined :
    (method url second_method second_url n : Text) (headers : List (Text × Text))
    → IsLine method url
    → IsLine second_method second_url
    → All IsHeader headers
    → IsHeader (cseq_header, n)
    → (r : Request) × (parse_request (
          print_request method url headers
            (print_request second_method second_url ((cseq_header, n) ∷ []) []))
        ≡ some r)
      × (r.method ≡ method)
      × (r.url ≡ url)
      × (r.cseq ≡ n)
unfolding add_headers
parse_request_pipelined method url second_method second_url n headers l m h k =
    let headers_read =
      add_header (add_header (header_dict [] headers) (request_line second_method second_url))
        (header_line (cseq_header, n)) in
    (
      record {
        method = method;
        url = url;
        headers = headers_read;
        cseq = header_or cseq_word (b'1' ∷ []) headers_read;
      },
      parse-print method url headers _ l h
          ∙ ap
              (λ ls.
                request_of (method ∷ url ∷ version ∷ []) (add_headers (header_dict [] headers) ls))
              (second_lines second_method second_url n m k),
      refl,
      refl,
      last_cseq _ n k,
    )
