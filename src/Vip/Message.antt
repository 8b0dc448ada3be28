-- ===== src/Vip/Message.antt =====
-- `parse_ctpp_message` and `address_matches`.
pub mod Layout
use comelit_man.Prelude.{
  Text, ℕ, ◌+◌, ◌-◌, Bool, true, false, not, ◌&&◌, ◌||◌, Option, none, some, List, [], ◌∷◌, ltb,
  leb, ◌==◌, if◌then◌else◌, length, take, drop,
}
use comelit_man.Bytes.{Bytes, le16_at, be16_at, le32_at, same_bytes}
use comelit_man.Vip.Address.{find_addresses}

pub record Message : Type 0 where
  pub prefix : ℕ
  pub timestamp : ℕ
  pub action : ℕ
  pub raw : Bytes
  pub flags : Option ℕ
  pub addresses : List Text
  pub call_tag : Option Bytes

abbrev pub min_msg_size : ℕ
min_msg_size = 8

abbrev pub begins_with : Bytes → Bytes → Bool
begins_with [] d = true
begins_with (x ∷ xs) [] = false
begins_with (x ∷ xs) (y ∷ ys) = x == y && begins_with xs ys

-- `d.find(word)`, with none for -1.
unfoldable pub find : Bytes → Bytes → Option ℕ
find word [] = if begins_with word [] then some 0 else none
find word (c ∷ cs) =
    let later = find word cs in
    if begins_with word (c ∷ cs) then some 0 else elim later [ none ↦ none | some i ↦ some (i + 1) ]

-- `data[marker - 2 : marker] if marker >= 2 else None`
unfoldable pub tag_before : Bytes → Option ℕ → Option Bytes
tag_before d none = none
tag_before d (some marker) = if leb 2 marker then some (take 2 (drop (marker - 2) d)) else none

unfoldable pub message_of : Bytes → Message
unfolding find tag_before find_addresses
message_of d = record {
  prefix = le16_at d 0;
  timestamp = le32_at d 2;
  action = be16_at d 6;
  raw = d;
  flags = if leb 10 (length d) then some (be16_at d 8) else none;
  addresses = find_addresses (length d) d;
  call_tag = tag_before d (find (0xff ∷ 0xff ∷ 0xff ∷ 0xff ∷ []) d);
}

-- The unpacking stays within the eight bytes that the test leaves.
unfoldable pub parse_ctpp_message : Bytes → Option Message
unfolding message_of
parse_ctpp_message d = if ltb (length d) min_msg_size then none else some (message_of d)

unfoldable pub ends_with : Bytes → Bytes → Bool
unfolding same_bytes
ends_with word d = leb (length word) (length d) && same_bytes (drop (length d - length word) d) word

abbrev no_text : Text → Bool
no_text [] = true
no_text (c ∷ s) = false

unfoldable pub address_matches : Text → Text → Bool
unfolding same_bytes ends_with
address_matches a b =
    not (no_text a || no_text b)
    && (same_bytes a b || begins_with b a || begins_with a b || ends_with b a || ends_with a b)
