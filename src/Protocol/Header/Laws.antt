-- ===== src/Protocol/Header/Laws.antt =====
-- The header decodes to what was encoded, and encoding fails exactly on numbers out of range.
use comelit_man.Prelude.{
  ℕ, ◌^◌, ◌≤◌, ◌<◌, ◌≡◌, ◌↔◌, ◌⊎◌, [], ◌∷◌, ◌++◌, arith, lt→ltb, length, struct_error, value_error,
  ok, err,
}
use comelit_man.Bytes.{Bytes, le16}
use comelit_man.Protocol.Header.{header_size, encode_header, decode_header, frame}

pub encode_header-ok :
    (n r : ℕ)
    → n < 2 ^ 16
    → r < 2 ^ 16
    → encode_header n r ≡ ok (0x00 ∷ 0x06 ∷ (le16 n ++ (le16 r ++ 0x00 ∷ 0x00 ∷ [])))
unfolding encode_header
encode_header-ok n r h k = ground arith

pub encode_header-range :
    (n r : ℕ) {h : Bytes} → encode_header n r ≡ ok h → (n < 2 ^ 16) × (r < 2 ^ 16)
unfolding encode_header
encode_header-range n r e = ground arith

-- A header that `encode_header` returns has eight bytes, and `decode_header` reads the length and
-- the request id back from it, whatever bytes follow.
pub decode_header-encode_header :
    (n r : ℕ) (rest : Bytes) {h : Bytes}
    → encode_header n r ≡ ok h
    → (length h ≡ header_size) × (decode_header (h ++ rest) ≡ ok (n, r))
unfolding encode_header decode_header
decode_header-encode_header n r rest e =
    let (hn, hr) = encode_header-range n r e in ground (arith, encode_header-ok n r hn hr)

-- `encode_header` raises `struct.error` exactly when the length or the request id needs more than
-- 16 bits.
pub encode_header_fails_iff :
    (n r : ℕ) → (encode_header n r ≡ err struct_error) ↔ ((2 ^ 16 ≤ n) ⊎ (2 ^ 16 ≤ r))
unfolding encode_header
encode_header_fails_iff n r = (λ e. ground arith, λ e. ground arith)

-- A short packet is refused.
pub decode_header_short : (d : Bytes) → length d < header_size → decode_header d ≡ err value_error
unfolding decode_header
decode_header_short d h = rw (lt→ltb _ _ h)

pub frame-ok :
    (r : ℕ) (body : Bytes)
    → length body < 2 ^ 16
    → r < 2 ^ 16
    → frame r body ≡ ok (0x00 ∷ 0x06 ∷ (le16 (length body) ++ (le16 r ++ 0x00 ∷ 0x00 ∷ body)))
unfolding frame
frame-ok r body h k = rw (encode_header-ok (length body) r h k)
