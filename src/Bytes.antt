-- ===== src/Bytes.antt =====
-- Byte strings: `struct.pack` and `struct.unpack_from` of the formats `<H <I >H >I`, and
-- `str.encode("ascii")`, each with the exception that Python raises.
pub mod Laws
use comelit_man.Prelude.{
  Text, ℕ, ◌+◌, ◌*◌, ◌/◌, ◌%◌, ◌^◌, ◌<◌, ◌≡◌, ◌↔◌, Bool, true, false, ◌&&◌, List, [], ◌∷◌, arith,
  ltb, leb, ◌==◌, if◌then◌else◌, length, get_or, All, Result, struct_error, unicode_error, ok, err,
}

abbrev pub Bytes : Type 0
Bytes = List ℕ

abbrev pub IsBytes : Bytes → Type 0
IsBytes d = All (λ b. b < 256) d

-- `d[i]`; the code indexes only below a length that it has tested.
abbrev pub byte_at : Bytes → ℕ → ℕ
byte_at d i = get_or d i 0

-- The digits that `struct.pack` writes for a number in range.
abbrev pub le16 : ℕ → Bytes
le16 v = v % 256 ∷ v / 256 ∷ []

abbrev pub be16 : ℕ → Bytes
be16 v = v / 256 ∷ v % 256 ∷ []

abbrev pub le32 : ℕ → Bytes
le32 v = v % 256 ∷ v / 256 % 256 ∷ v / 65536 % 256 ∷ v / 16777216 ∷ []

abbrev pub be32 : ℕ → Bytes
be32 v = v / 16777216 ∷ v / 65536 % 256 ∷ v / 256 % 256 ∷ v % 256 ∷ []

-- `struct.pack`: a number that does not fit raises `struct.error`.
unfoldable pub pack_le16 : ℕ → Result Bytes
pack_le16 v = if ltb v (2 ^ 16) then ok (le16 v) else err struct_error

unfoldable pub pack_be16 : ℕ → Result Bytes
pack_be16 v = if ltb v (2 ^ 16) then ok (be16 v) else err struct_error

unfoldable pub pack_le32 : ℕ → Result Bytes
pack_le32 v = if ltb v (2 ^ 32) then ok (le32 v) else err struct_error

unfoldable pub pack_be32 : ℕ → Result Bytes
pack_be32 v = if ltb v (2 ^ 32) then ok (be32 v) else err struct_error

-- The number at an offset that lies within the data.
abbrev pub le16_at : Bytes → ℕ → ℕ
le16_at d i = byte_at d i + byte_at d (i + 1) * 256

abbrev pub be16_at : Bytes → ℕ → ℕ
be16_at d i = byte_at d i * 256 + byte_at d (i + 1)

abbrev pub le32_at : Bytes → ℕ → ℕ
le32_at d i = le16_at d i + le16_at d (i + 2) * 65536

abbrev pub be32_at : Bytes → ℕ → ℕ
be32_at d i = be16_at d i * 65536 + be16_at d (i + 2)

-- `struct.unpack_from`: an offset too near the end raises `struct.error`.
unfoldable pub unpack_le16 : Bytes → ℕ → Result ℕ
unpack_le16 d i = if leb (i + 2) (length d) then ok (le16_at d i) else err struct_error

unfoldable pub unpack_be16 : Bytes → ℕ → Result ℕ
unpack_be16 d i = if leb (i + 2) (length d) then ok (be16_at d i) else err struct_error

unfoldable pub unpack_le32 : Bytes → ℕ → Result ℕ
unpack_le32 d i = if leb (i + 4) (length d) then ok (le32_at d i) else err struct_error

unfoldable pub unpack_be32 : Bytes → ℕ → Result ℕ
unpack_be32 d i = if leb (i + 4) (length d) then ok (be32_at d i) else err struct_error

abbrev pub all_ascii : Text → Bool
all_ascii [] = true
all_ascii (c ∷ s) = ltb c 128 && all_ascii s

-- `s.encode("ascii")`
unfoldable pub encode_ascii : Text → Result Bytes
encode_ascii s = if all_ascii s then ok s else err unicode_error

-- `a == b` on byte strings and texts.
unfoldable pub same_bytes : Bytes → Bytes → Bool
same_bytes [] [] = true
same_bytes (x ∷ xs) (y ∷ ys) = x == y && same_bytes xs ys
same_bytes _ _ = false

pub same_bytes_iff : (a b : Bytes) → (same_bytes a b ≡ true) ↔ (a ≡ b)
unfolding same_bytes
same_bytes_iff (x ∷ xs) (y ∷ ys) = ground (arith, same_bytes_iff xs ys)
same_bytes_iff _ _ = ground arith
