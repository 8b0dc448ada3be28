-- ===== src/Token/Download.antt =====
-- token.py: the login on the device's web pages and the newest backup.
use comelit_man.Web.{Web, ◌>>=◌, ◌>>◌, pure, lift, ask, require, is_ok, post, get}
use comelit_man.Prelude.{
  Text, Bool, true, false, not, ◌&&◌, ◌||◌, List, [], ◌∷◌, ◌++◌, ltb, ◌==◌, if◌then◌else◌, Result,
  token_extraction_error, err, ok,
}
use comelit_man.Texts.{starts_with, contains, is_digit, blank}
use comelit_man.Token.{Tools, parse_token}
use comelit_man.Bytes.{Bytes}

abbrev pub login_page : Text
login_page =
    b'/' ∷ b'd' ∷ b'o' ∷ b'-' ∷ b'l' ∷ b'o' ∷ b'g' ∷ b'i' ∷ b'n' ∷ b'.' ∷ b'h' ∷ b't' ∷ b'm' ∷ b'l'
    ∷ []

abbrev pub access_granted : Text
access_granted =
    b'A' ∷ b'c' ∷ b'c' ∷ b'e' ∷ b's' ∷ b's' ∷ b' ' ∷ b'g' ∷ b'r' ∷ b'a' ∷ b'n' ∷ b't' ∷ b'e' ∷ b'd'
    ∷ []

abbrev pub create_backup_page : Text
create_backup_page =
    b'/' ∷ b'c' ∷ b'r' ∷ b'e' ∷ b'a' ∷ b't' ∷ b'e' ∷ b'-' ∷ b'b' ∷ b'a' ∷ b'c' ∷ b'k' ∷ b'u' ∷ b'p'
    ∷ b'.' ∷ b'h' ∷ b't' ∷ b'm' ∷ b'l' ∷ []

abbrev pub backup_created : Text
backup_created =
    b'B' ∷ b'a' ∷ b'c' ∷ b'k' ∷ b'u' ∷ b'p' ∷ b' ' ∷ b's' ∷ b'u' ∷ b'c' ∷ b'c' ∷ b'e' ∷ b's' ∷ b's'
    ∷ b'f' ∷ b'u' ∷ b'l' ∷ b'l' ∷ b'y' ∷ b' ' ∷ b'c' ∷ b'r' ∷ b'e' ∷ b'a' ∷ b't' ∷ b'e' ∷ b'd' ∷ []

abbrev pub backup_page : Text
backup_page =
    b'/' ∷ b'c' ∷ b'o' ∷ b'n' ∷ b'f' ∷ b'i' ∷ b'g' ∷ b'-' ∷ b'b' ∷ b'a' ∷ b'c' ∷ b'k' ∷ b'u' ∷ b'p'
    ∷ b'.' ∷ b'h' ∷ b't' ∷ b'm' ∷ b'l' ∷ []

abbrev pub archive_suffix : Text
archive_suffix = b'.' ∷ b't' ∷ b'a' ∷ b'r' ∷ b'.' ∷ b'g' ∷ b'z' ∷ []

unfoldable pub login : Text → Web (Unit {0})
unfolding contains
login password = do
  page ← ask (post login_page password)
  require (is_ok page)
  require (contains access_granted page.text)

-- `re.findall(r"([0-9]+\.tar\.gz)", html)`; `run` is the run of digits in front. No match has a
-- digit behind its first dot, so the search may go on inside of it.
unfoldable pub backup_files : Text → Text → List Text
backup_files run [] = []
backup_files run (c ∷ t) =
    let longer = backup_files (run ++ c ∷ []) t in
    let later = backup_files [] t in
    if is_digit c
    then longer
    else if not (blank run) && starts_with archive_suffix (c ∷ t)
    then (run ++ archive_suffix) ∷ later
    else later

-- `a <= b` of two texts.
unfoldable pub text_leb : Text → Text → Bool
text_leb [] t = true
text_leb (c ∷ s) [] = false
text_leb (c ∷ s) (d ∷ t) = ltb c d || (c == d && text_leb s t)

-- The last of the sorted names.
unfoldable pub greatest : Text → List Text → Text
unfolding text_leb
greatest name [] = name
greatest name (other ∷ names) = greatest (if text_leb name other then other else name) names

unfoldable pub latest_of : List Text → Result Text
unfolding greatest
latest_of [] = err token_extraction_error
latest_of (name ∷ names) = ok (greatest name names)

unfoldable pub download_latest_backup : Web Bytes
unfolding contains backup_files latest_of
download_latest_backup = do
  created ← ask (post create_backup_page [])
  require (contains backup_created created.text)
  page ← ask (get backup_page)
  require (is_ok page)
  latest ← lift (latest_of (backup_files [] page.text))
  archive ← ask (get (b'/' ∷ latest))
  require (is_ok archive)
  pure archive.content

-- `_do_extract`
unfoldable pub do_extract : Tools → Text → Web Text
unfolding login download_latest_backup parse_token
do_extract tools password = do
  login password
  archive ← download_latest_backup
  lift (parse_token tools archive)
