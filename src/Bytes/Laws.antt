-- ===== src/Bytes/Laws.antt =====
-- What packing and encoding return on the values in range.
use comelit_man.Prelude.{
  Text, IsAscii, ℕ, ◌+◌, ◌^◌, ◌≤◌, ◌<◌, ◌≡◌, refl, true, [], ◌∷◌, ◌++◌, arith, lt→ltb, le→leb,
  length, get_or_append_length, ok,
}
use comelit_man.Bytes.{
  Bytes, IsBytes, le16, be16, le32, be32, pack_le16, pack_be16, pack_le32, pack_be32, le16_at,
  be16_at, le32_at, be32_at, unpack_le16, unpack_be16, unpack_le32, unpack_be32, all_ascii,
  encode_ascii,
}

pub pack_le16-ok : (v : ℕ) → v < 2 ^ 16 → pack_le16 v ≡ ok (le16 v)
unfolding pack_le16
pack_le16-ok v h = rw (lt→ltb _ _ h)

pub pack_be16-ok : (v : ℕ) → v < 2 ^ 16 → pack_be16 v ≡ ok (be16 v)
unfolding pack_be16
pack_be16-ok v h = rw (lt→ltb _ _ h)

pub pack_le32-ok : (v : ℕ) → v < 2 ^ 32 → pack_le32 v ≡ ok (le32 v)
unfolding pack_le32
pack_le32-ok v h = rw (lt→ltb _ _ h)

pub pack_be32-ok : (v : ℕ) → v < 2 ^ 32 → pack_be32 v ≡ ok (be32 v)
unfolding pack_be32
pack_be32-ok v h = rw (lt→ltb _ _ h)

IsAscii→all_ascii : (s : Text) → IsAscii s → all_ascii s ≡ true
IsAscii→all_ascii [] h = refl
IsAscii→all_ascii (c ∷ s) h = rw (lt→ltb _ _ h.0) (IsAscii→all_ascii s h.1)

pub encode_ascii-ok : (s : Text) → IsAscii s → encode_ascii s ≡ ok s
unfolding encode_ascii
encode_ascii-ok s h = rw (IsAscii→all_ascii s h)

pub IsAscii→IsBytes : (s : Text) → IsAscii s → IsBytes s
IsAscii→IsBytes [] h = tt
IsAscii→IsBytes (c ∷ s) h = (omega arith, IsAscii→IsBytes s h.1)

pub unpack_le16-ok : (d : Bytes) (i : ℕ) → i + 2 ≤ length d → unpack_le16 d i ≡ ok (le16_at d i)
unfolding unpack_le16
unpack_le16-ok d i h = rw (le→leb _ _ h)

pub unpack_be16-ok : (d : Bytes) (i : ℕ) → i + 2 ≤ length d → unpack_be16 d i ≡ ok (be16_at d i)
unfolding unpack_be16
unpack_be16-ok d i h = rw (le→leb _ _ h)

pub unpack_le32-ok : (d : Bytes) (i : ℕ) → i + 4 ≤ length d → unpack_le32 d i ≡ ok (le32_at d i)
unfolding unpack_le32
unpack_le32-ok d i h = rw (le→leb _ _ h)

pub unpack_be32-ok : (d : Bytes) (i : ℕ) → i + 4 ≤ length d → unpack_be32 d i ≡ ok (be32_at d i)
unfolding unpack_be32
unpack_be32-ok d i h = rw (le→leb _ _ h)

-- A 32-bit field that stands behind `n` bytes.
pub le32_behind :
    (n : ℕ) (pre rest : Bytes) (v : ℕ)
    → length pre ≡ n
    → v < 2 ^ 32
    → le32_at (pre ++ (le32 v ++ rest)) n ≡ v
le32_behind n pre rest v h k = ground (
  arith,
  get_or_append_length n 0 pre (le32 v ++ rest) 0,
  get_or_append_length (n + 1) 1 pre (le32 v ++ rest) 0,
  get_or_append_length (n + 2) 2 pre (le32 v ++ rest) 0,
  get_or_append_length (n + 2 + 1) 3 pre (le32 v ++ rest) 0,
)

-- A 16-bit field that stands behind `n` bytes.
pub le16_behind :
    (n : ℕ) (pre rest : Bytes) (v : ℕ) → length pre ≡ n → le16_at (pre ++ (le16 v ++ rest)) n ≡ v
le16_behind n pre rest v h = ground (
  arith,
  get_or_append_length n 0 pre (le16 v ++ rest) 0,
  get_or_append_length (n + 1) 1 pre (le16 v ++ rest) 0,
)
