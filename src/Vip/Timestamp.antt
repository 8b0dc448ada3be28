-- ===== src/Vip/Timestamp.antt =====
-- `_transform_device_ts` of video_call.py and the counter steps.
use comelit_man.Prelude.{ℕ, ◌+◌, ◌/◌, ◌%◌, ◌^◌, ◌<◌, ◌≡◌, [], ◌∷◌, arith}
use comelit_man.Bits.{byte_or_80, bit_or}
use comelit_man.Bytes.{Bytes, byte_at, le32, le32_at}

-- The four bytes of the device's timestamp, with bit 7 of the first set, and the last two
-- exchanged with one added to what was the third.
abbrev pub transformed_bytes : ℕ → Bytes
transformed_bytes dev_ts =
    bit_or (byte_at (le32 dev_ts) 0) 0x80
    ∷ byte_at (le32 dev_ts) 1
    ∷ byte_at (le32 dev_ts) 3
    ∷ (byte_at (le32 dev_ts) 2 + 1) % 256
    ∷ []

unfoldable pub transform_device_ts : ℕ → ℕ
transform_device_ts dev_ts = le32_at (transformed_bytes dev_ts) 0

abbrev pub ctr_incr_both : ℕ
ctr_incr_both = 0x01010000

-- For a 32-bit device timestamp the result is a 32-bit number with bit 7 set; its second byte and
-- the low bits of the first are the device's, and its upper bytes are the device's exchanged, with
-- one added, around 256, to the third before it becomes the fourth.
pub transform_device_ts_lem :
    (ts : ℕ)
    → ts < 2 ^ 32
    → let r = transform_device_ts ts in
      (r < 2 ^ 32)
      × (r / 128 % 2 ≡ 1)
      × (r % 128 ≡ ts % 128)
      × (r / 256 % 256 ≡ ts / 256 % 256)
      × (r / 65536 % 256 ≡ ts / 16777216)
      × (r / 16777216 ≡ (ts / 65536 + 1) % 256)
unfolding transform_device_ts
transform_device_ts_lem ts h =
    let set = byte_or_80 (ts % 256) (omega arith) in
    (omega arith, omega arith, omega arith, omega arith, omega arith, omega arith)
