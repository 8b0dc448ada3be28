-- ===== src/Protocol/Ctpp.antt =====
-- The CTPP init message and the door and actuator messages of protocol.py.
use comelit_man.Prelude.{
  decimal, Text, ℕ, Bool, Option, none, some, [], ◌∷◌, ◌++◌, if◌then◌else◌, Result, ◌>>=◌, ok,
}
use comelit_man.Bytes.{Bytes, pack_le16, pack_le32, encode_ascii}

-- `_null_terminated`
unfoldable pub null_terminated : Text → Result Bytes
unfolding encode_ascii
null_terminated s = do b ← encode_ascii s; ok (b ++ 0x00 ∷ [])

abbrev pub separator : Bytes
separator = 0xff ∷ 0xff ∷ 0xff ∷ 0xff ∷ []

-- `struct.pack("<I", timestamp)`, or the fixed bytes of the door flow for `None`.
unfoldable pub timestamp_field : Option ℕ → Result Bytes
unfolding pack_le32
timestamp_field none = ok (0x5c ∷ 0x8b ∷ 0x2b ∷ 0x73 ∷ [])
timestamp_field (some ts) = pack_le32 ts

unfoldable pub encode_ctpp_init : Text → ℕ → Option ℕ → Result Bytes
unfolding pack_le16 timestamp_field null_terminated decimal
encode_ctpp_init apt_address apt_subaddress timestamp = do
  let addr_with_sub = apt_address ++ decimal apt_subaddress
  prefix ← pack_le16 0x18c0
  ts ← timestamp_field timestamp
  first ← null_terminated addr_with_sub
  second ← null_terminated addr_with_sub
  base ← null_terminated apt_address
  let flags = 0x00 ∷ 0x11 ∷ 0x00 ∷ 0x40 ∷ 0x18 ∷ 0xc2 ∷ []
  let gap = 0x10 ∷ 0x0e ∷ 0x00 ∷ 0x00 ∷ 0x00 ∷ 0x00 ∷ []
  ok (
      prefix
      ++ (ts ++ (flags ++ (first ++ (gap ++ (separator ++ (second ++ (base ++ 0x00 ∷ []))))))))

-- The address block that ends every door and actuator message.
unfoldable pub door_addresses : Text → ℕ → Text → Result Bytes
unfolding null_terminated decimal
door_addresses apt_address output_index door_apt_address = do
  target ← null_terminated (apt_address ++ decimal output_index)
  door ← null_terminated door_apt_address
  ok (target ++ (door ++ 0x00 ∷ []))

unfoldable pub encode_open_door : ℕ → Text → ℕ → Text → Result Bytes
unfolding pack_le16 door_addresses
encode_open_door msg_type apt_address output_index door_apt_address = do
  kind ← pack_le16 msg_type
  addresses ← door_addresses apt_address output_index door_apt_address
  ok (kind ++ (0x5c ∷ 0x8b ∷ 0x2c ∷ 0x74 ∷ 0x00 ∷ 0x00 ∷ (separator ++ addresses)))

unfoldable pub encode_door_init : Text → ℕ → Text → Result Bytes
unfolding pack_le32 null_terminated door_addresses
encode_door_init apt_address output_index door_apt_address = do
  let head = 0xc0 ∷ 0x18 ∷ 0x70 ∷ 0xab ∷ 0x29 ∷ 0x9f ∷ 0x00 ∷ 0x0d ∷ 0x00 ∷ 0x2d ∷ []
  door ← null_terminated door_apt_address
  index ← pack_le32 output_index
  addresses ← door_addresses apt_address output_index door_apt_address
  ok (head ++ (door ++ (0x00 ∷ (index ++ (separator ++ addresses)))))

unfoldable pub encode_actuator_init : Text → ℕ → Text → Result Bytes
unfolding door_addresses
encode_actuator_init apt_address output_index actuator_apt_address = do
  let head = 0xc0 ∷ 0x18 ∷ 0x45 ∷ 0xbe ∷ 0x8f ∷ 0x5c ∷ 0x00 ∷ 0x04 ∷ 0x00 ∷ 0x20 ∷ 0xff ∷ 0x01 ∷ []
  addresses ← door_addresses apt_address output_index actuator_apt_address
  ok (head ++ (separator ++ addresses))

unfoldable pub encode_actuator_open : Text → ℕ → Text → Bool → Result Bytes
unfolding door_addresses
encode_actuator_open apt_address output_index actuator_apt_address confirm = do
  let first = if confirm then 0x20 else 0x00
  let head = first ∷ 0x18 ∷ 0x45 ∷ 0xbe ∷ 0x8f ∷ 0x5c ∷ 0x00 ∷ 0x04 ∷ []
  addresses ← door_addresses apt_address output_index actuator_apt_address
  ok (head ++ (separator ++ addresses))
