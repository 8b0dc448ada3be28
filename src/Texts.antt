-- ===== src/Texts.antt =====
-- `str` methods on lists of code points, as the code uses them, for ASCII text.
pub mod Laws
use comelit_man.Prelude.{
  Text, ℕ, ◌+◌, ◌-◌, ◌*◌, ◌/◌, ◌%◌, Bool, true, false, ◌&&◌, ◌||◌, Option, none, some, List, [],
  ◌∷◌, ◌++◌, map, ltb, leb, ◌==◌, if◌then◌else◌, length, drop, Result, ◌>>=◌, unicode_error,
  value_error, err, ok,
}
use comelit_man.Bytes.{Bytes}

-- `hay.startswith(needle)`
abbrev pub starts_with : Text → Text → Bool
starts_with [] hay = true
starts_with (c ∷ needle) [] = false
starts_with (c ∷ needle) (d ∷ hay) = c == d && starts_with needle hay

-- `needle in hay`
unfoldable pub contains : Text → Text → Bool
contains needle [] = starts_with needle []
contains needle (d ∷ hay) = starts_with needle (d ∷ hay) || contains needle hay

abbrev pub onto_first : ℕ → List Text → List Text
onto_first c [] = (c ∷ []) ∷ []
onto_first c (t ∷ ts) = (c ∷ t) ∷ ts

-- `text.split(sep)` with a separator of one character.
unfoldable pub split_on : ℕ → Text → List Text
split_on sep [] = [] ∷ []
split_on sep (c ∷ t) =
    let rest = split_on sep t in if c == sep then [] ∷ rest else onto_first c rest

-- `text.split(sep, 1)[1]`; without a separator the index is out of range.
unfoldable pub behind_first : ℕ → Text → Result Text
behind_first sep [] = err value_error
behind_first sep (c ∷ t) = let rest = behind_first sep t in if c == sep then ok t else rest

abbrev pub first_of : List Text → Text
first_of [] = []
first_of (t ∷ ts) = t

abbrev pub is_space : ℕ → Bool
is_space c = c == 32 || (leb 9 c && leb c 13) || (leb 28 c && leb c 31)

unfoldable pub strip_left : Text → Text
strip_left [] = []
strip_left (c ∷ t) = let rest = strip_left t in if is_space c then rest else c ∷ t

abbrev pub strip_onto : ℕ → Text → Text
strip_onto c [] = if is_space c then [] else c ∷ []
strip_onto c (d ∷ t) = c ∷ d ∷ t

unfoldable pub strip_right : Text → Text
strip_right [] = []
strip_right (c ∷ t) = strip_onto c (strip_right t)

abbrev pub is_digit : ℕ → Bool
is_digit c = leb b'0' c && leb c b'9'

-- The digits of an `int(…)`, with single underscores between them; `seen` is whether the last
-- character was a digit.
unfoldable pub digits : ℕ → Bool → Text → Result ℕ
digits n seen [] = if seen then ok n else err value_error
digits n seen (c ∷ t) =
    let rest = digits (if is_digit c then n * 10 + (c - b'0') else n) (is_digit c) t in
    if is_digit c || (c == b'_' && seen) then rest else err value_error

abbrev pub unsigned : Text → Text
unsigned [] = []
unsigned (c ∷ t) = if c == b'+' then t else c ∷ t

-- `int(text)` of ASCII text without a minus sign.
unfoldable pub int_of : Text → Result ℕ
unfolding digits strip_left strip_right
int_of t = digits 0 false (unsigned (strip_left (strip_right t)))

unfoldable pub strip : Text → Text
unfolding strip_left strip_right
strip t = strip_left (strip_right t)

-- `text.split(sep, 1)` as a pair, or none when there is no separator.
unfoldable pub split_first : ℕ → Text → Option (Text × Text)
split_first sep [] = none
split_first sep (c ∷ t) =
    if c == sep
    then some ([], t)
    else elim (split_first sep t) [ none ↦ none | some (front, rest) ↦ some (c ∷ front, rest) ]

abbrev pub lower_char : ℕ → ℕ
lower_char c = if leb b'A' c && leb c b'Z' then c + 32 else c

-- `text.lower()` of ASCII text.
unfoldable pub lower : Text → Text
lower t = map lower_char t

-- The words of a text, and whether its first character belongs to one.
unfoldable pub words_from : Text → List Text × Bool
words_from [] = ([], false)
words_from (c ∷ t) =
    let (later, started) = words_from t in
    if is_space c
    then (later, false)
    else if started
    then (onto_first c later, true)
    else ((c ∷ []) ∷ later, true)

-- `text.split()`
unfoldable pub words : Text → List Text
unfolding words_from
words t = (words_from t).0

-- `not text`
abbrev pub blank : Text → Bool
blank [] = true
blank (c ∷ t) = false

-- What is behind the first occurrence of a text, as `find` and a slice give it.
unfoldable pub behind : Text → Text → Option Text
behind needle [] = if starts_with needle [] then some [] else none
behind needle (c ∷ t) =
    let later = behind needle t in
    if starts_with needle (c ∷ t) then some (drop (length needle) (c ∷ t)) else later

-- What is in front of the first occurrence of a text; all of it when there is none.
unfoldable pub before : Text → Text → Text
before needle [] = []
before needle (c ∷ t) =
    let later = before needle t in if starts_with needle (c ∷ t) then [] else c ∷ later

-- The UTF-8 bytes of a code point; a surrogate cannot be encoded.
unfoldable pub utf8_char : ℕ → Result Bytes
utf8_char c =
    if ltb c 128
    then ok (c ∷ [])
    else if ltb c 2048
    then ok ((192 + c / 64) ∷ (128 + c % 64) ∷ [])
    else if leb 55296 c && ltb c 57344
    then err unicode_error
    else if ltb c 65536
    then ok ((224 + c / 4096) ∷ (128 + c / 64 % 64) ∷ (128 + c % 64) ∷ [])
    else ok ((240 + c / 262144) ∷ (128 + c / 4096 % 64) ∷ (128 + c / 64 % 64) ∷ (128 + c % 64) ∷ [])

unfoldable pub utf8 : Text → Result Bytes
unfolding utf8_char
utf8 [] = ok []
utf8 (c ∷ t) = do front ← utf8_char c; rest ← utf8 t; ok (front ++ rest)

-- `text.split("\r\n")`
unfoldable pub split_crlf : Text → List Text
split_crlf [] = [] ∷ []
split_crlf (c ∷ []) = (c ∷ []) ∷ []
split_crlf (c ∷ d ∷ t) =
    let behind_both = split_crlf t in
    let behind_one = split_crlf (d ∷ t) in
    if c == 13 && d == 10 then [] ∷ behind_both else onto_first c behind_one

unfoldable pub not_blank : List Text → List Text
not_blank [] = []
not_blank (line ∷ lines) = let rest = not_blank lines in if blank line then rest else line ∷ rest
