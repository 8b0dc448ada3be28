-- ===== src/Vip/Address.antt =====
-- `_ADDR_RE.finditer`: VIP addresses in a message, `((?:SB)?[0-9A-Fa-f]{6,9})\x00`.
pub mod Sound
use comelit_man.Prelude.{
  Text, ℕ, zero, suc, Bool, ◌&&◌, ◌||◌, Option, none, some, List, [], ◌∷◌, leb, ◌==◌, if◌then◌else◌,
  length,
}
use comelit_man.Bytes.{Bytes}

unfoldable pub is_hex : ℕ → Bool
is_hex c = leb b'0' c && leb c b'9' || leb b'A' c && leb c b'F' || leb b'a' c && leb c b'f'

-- The longest run of at most `n` hex digits, and what follows it.
unfoldable pub hex_run : ℕ → Bytes → Bytes × Bytes
unfolding is_hex
hex_run zero d = ([], d)
hex_run (suc n) [] = ([], [])
hex_run (suc n) (c ∷ cs) =
    let (run, rest) = hex_run n cs in if is_hex c then (c ∷ run, rest) else ([], c ∷ cs)

-- The terminator is no hex digit, so a shorter run than the longest is never followed by it, and
-- backtracking finds nothing more.
unfoldable pub end_of_digits : Bytes × Bytes → Option (Bytes × Bytes)
end_of_digits (run, []) = none
end_of_digits (run, c ∷ rest) = if c == 0x00 && leb 6 (length run) then some (run, rest) else none

unfoldable pub match_digits : Bytes → Option (Bytes × Bytes)
unfolding hex_run end_of_digits
match_digits d = end_of_digits (hex_run 9 d)

abbrev pub with_prefix : Option (Bytes × Bytes) → Option (Bytes × Bytes)
with_prefix none = none
with_prefix (some (run, rest)) = some (b'S' ∷ b'B' ∷ run, rest)

-- A match at the front: the address, and what follows its terminator. `S` is no hex digit, so
-- without the optional part a text that starts with it does not match.
unfoldable pub match_address : Bytes → Option (Bytes × Bytes)
unfolding match_digits
match_address [] = none
match_address (a ∷ []) = none
match_address (a ∷ b ∷ rest) =
    if a == b'S' && b == b'B' then with_prefix (match_digits rest) else match_digits (a ∷ b ∷ rest)

-- The search goes on behind a match, and one byte further where there is none; the length of the
-- data is fuel enough.
unfoldable pub find_addresses : ℕ → Bytes → List Text
unfolding match_address
find_addresses zero d = []
find_addresses (suc fuel) [] = []
find_addresses (suc fuel) (c ∷ cs) = elim (match_address (c ∷ cs)) [
  | none ↦ find_addresses fuel cs
  | some (address, rest) ↦ address ∷ find_addresses fuel rest
]
