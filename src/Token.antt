-- ===== src/Token.antt =====
-- custom_components/comelit_man/token.py: the token in a backup of the device's configuration. The
-- archive formats and the decoder are the standard library's: they are parameters.
pub mod Download
pub mod Laws
use comelit_man.Prelude.{
  Text, ℕ, Bool, true, not, ◌&&◌, ◌||◌, Option, none, some, List, [], ◌∷◌, leb, ◌==◌, if◌then◌else◌,
  length, take, drop, replicate, Result, ◌>>=◌, token_extraction_error, err, ok,
}
use comelit_man.Bytes.{Bytes, same_bytes}
use comelit_man.Texts.{starts_with, contains, split_on, is_digit, blank}

abbrev pub users_cfg : Text
users_cfg = b'u' ∷ b's' ∷ b'e' ∷ b'r' ∷ b's' ∷ b'.' ∷ b'c' ∷ b'f' ∷ b'g' ∷ []

abbrev pub users_map : Text
users_map = b'm' ∷ b's' ∷ b'p' ∷ b'U' ∷ b's' ∷ b'e' ∷ b'r' ∷ b's' ∷ b'M' ∷ b'a' ∷ b'p' ∷ []

abbrev pub token_front : Text
token_front = b'9' ∷ b':' ∷ b'4' ∷ b':' ∷ b'"' ∷ []

abbrev pub null_token : Text
null_token = replicate 32 b'0'

-- `tarfile.open(…).getmembers()`, or none for a `TarError`, with what `extractfile` gives;
-- `gzip.decompress`; and `raw.decode("utf-8", errors="replace")`.
pub record Tools : Type 0 where
  pub members : Bytes → Option (List (Text × Option Bytes))
  pub gunzip : Bytes → Result Bytes
  pub decode : Bytes → Text

abbrev is_part : Text → Bool
is_part part = not (blank part || same_bytes part (b'.' ∷ []))

unfoldable pub last_part : Text → List Text → Text
last_part found [] = found
last_part found (part ∷ parts) = last_part (if is_part part then part else found) parts

-- `PurePosixPath(name).name`
unfoldable pub base_name : Text → Text
unfolding last_part split_on
base_name name = last_part [] (split_on b'/' name)

abbrev is_gzip : Bytes → Bool
is_gzip raw = same_bytes (take 2 raw) (0x1f ∷ 0x8b ∷ [])

unfoldable pub read_raw : Tools → Bytes → Result Text
unfolding same_bytes
read_raw tools raw =
    if is_gzip raw
    then (tools.gunzip raw >>= λ plain. ok (tools.decode plain))
    else ok (tools.decode raw)

-- The text of a member that is a `users.cfg`; none for any other.
unfoldable pub read_member : Tools → Text × Option Bytes → Result (Option Text)
unfolding base_name read_raw same_bytes
read_member tools (name, none) = ok none
read_member tools (name, some raw) =
    if same_bytes (base_name name) users_cfg
    then (read_raw tools raw >>= λ text. ok (some text))
    else ok none

abbrev pub or_later : Result Text → Option Text → Result Text
or_later later none = later
or_later later (some found) = ok found

abbrev pub picked : (Text → Option Text) → Result Text → Option Text → Result Text
picked pick later none = later
picked pick later (some text) = or_later later (pick text)

-- The loop over the members, up to the first text that `pick` finds something in.
unfoldable pub pick_member : Tools → (Text → Option Text) → List (Text × Option Bytes) → Result Text
unfolding read_member
pick_member tools pick [] = err token_extraction_error
pick_member tools pick (m ∷ ms) =
    let later = pick_member tools pick ms in read_member tools m >>= picked pick later

unfoldable pub pick_in :
    Tools → (Text → Option Text) → Option (List (Text × Option Bytes)) → Result Text
unfolding pick_member
pick_in tools pick none = err token_extraction_error
pick_in tools pick (some ms) = pick_member tools pick ms

unfoldable pub users_text : Text → Option Text
unfolding contains
users_text text = if contains users_map text then some text else none

unfoldable pub read_users_cfg : Tools → Bytes → Result Text
unfolding pick_in users_text
read_users_cfg tools archive = pick_in tools users_text (tools.members archive)

abbrev pub is_hex : ℕ → Bool
is_hex c = is_digit c || (leb b'a' c && leb c b'f') || (leb b'A' c && leb c b'F')

abbrev pub all_hex : Text → Bool
all_hex [] = true
all_hex (c ∷ t) = is_hex c && all_hex t

-- `TOKEN_PATTERN` at the start of a text.
unfoldable pub token_at : Text → Option Text
token_at t =
    let rest = drop 5 t in
    let token = take 32 rest in
    if starts_with token_front t
      && (all_hex token && (starts_with (b'"' ∷ []) (drop 32 rest) && length token == 32))
    then some token
    else none

-- `TOKEN_PATTERN.findall(content)`. A match has no other one inside of it, since its only colons
-- are in its first five characters.
unfoldable pub tokens : Text → List Text
unfolding token_at
tokens [] = []
tokens (c ∷ t) =
    let later = tokens t in elim (token_at (c ∷ t)) [ none ↦ later | some token ↦ token ∷ later ]

-- The first token that is not all zeros.
unfoldable pub first_token : List Text → Option Text
unfolding same_bytes
first_token [] = none
first_token (token ∷ later) =
    let rest = first_token later in if same_bytes token null_token then rest else some token

unfoldable pub token_in : Text → Option Text
unfolding tokens first_token
token_in content = first_token (tokens content)

-- `_parse_token_from_archive`
unfoldable pub parse_token : Tools → Bytes → Result Text
unfolding pick_in token_in
parse_token tools archive = pick_in tools token_in (tools.members archive)
