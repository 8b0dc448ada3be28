-- ===== src/Web/Quote.antt =====
-- `urllib.parse.quote(value, safe="")`: every byte of the UTF-8 text that is not unreserved is
-- written as a percent sign and two digits.
use comelit_man.Prelude.{
  Text, ℕ, ◌+◌, ◌/◌, ◌%◌, Bool, ◌&&◌, ◌||◌, [], ◌∷◌, ltb, leb, ◌==◌, if◌then◌else◌, Result, ◌>>=◌,
  ok,
}
use comelit_man.Bytes.{Bytes}
use comelit_man.Texts.{utf8}

abbrev is_alphanumeric : ℕ → Bool
is_alphanumeric b =
    (leb b'0' b && leb b b'9') || (leb b'A' b && leb b b'Z') || (leb b'a' b && leb b b'z')

abbrev pub unreserved : ℕ → Bool
unreserved b = is_alphanumeric b || (b == b'_' || b == b'.' || b == b'-' || b == b'~')

abbrev pub hex_digit : ℕ → ℕ
hex_digit n = if ltb n 10 then b'0' + n else 55 + n

unfoldable pub quote_bytes : Bytes → Text
quote_bytes [] = []
quote_bytes (b ∷ bs) =
    let rest = quote_bytes bs in
    if unreserved b then b ∷ rest else b'%' ∷ hex_digit (b / 16) ∷ hex_digit (b % 16) ∷ rest

unfoldable pub quote : Text → Result Text
unfolding utf8 quote_bytes
quote t = do bytes ← utf8 t; ok (quote_bytes bytes)
