-- ===== src/Client/DeviceOpen.antt =====
-- The id that is read from a channel open of the device.
use comelit_man.Prelude.{
  Text, ℕ, suc, ◌+◌, ◌/◌, ◌%◌, ◌^◌, ◌<◌, ◌≡◌, false, none, some, [], ◌∷◌, ◌++◌, arith, ◌==◌,
  if◌then◌else◌, length, All, length-append, get_or_append_length, ok,
}
use comelit_man.Bytes.{Bytes, byte_at, le16, le32}
use comelit_man.Protocol.Channel.{command, channel_open_body}
use comelit_man.Client.Dispatch.{index_zero, device_req_id}

abbrev open_bytes : Text → ℕ → ℕ → Bytes
open_bytes name kind id =
    le16 command ++ (le16 1 ++ (le32 kind ++ (name ++ (le16 id ++ 0x00 ∷ []))))

open_inversion :
    (name : Text) (kind id : ℕ) {body : Bytes}
    → channel_open_body name kind 1 id none 0 ≡ ok body
    → (id < 2 ^ 16) × (body ≡ open_bytes name kind id)
unfolding channel_open_body
open_inversion name kind id e = (ground arith, ground arith)

not_zero : (c : ℕ) → 0 < c → (c == 0) ≡ false
not_zero c h = ground arith

+-zero : (i : ℕ) → i + 0 ≡ i
+-zero i = omega arith

+-suc : (i n : ℕ) → i + 1 + n ≡ i + suc n
+-suc i n = omega arith

index_zero-append :
    (i : ℕ) (xs ys : Bytes)
    → All (λ c. 0 < c) xs
    → index_zero i (xs ++ ys) ≡ index_zero (i + length xs) ys
unfolding index_zero
index_zero-append i [] ys h = rw (+-zero i)
index_zero-append i (c ∷ xs) ys h =
    let positive : (c == 0) ≡ false = not_zero c h.0 in
    rw (positive, index_zero-append (i + 1) xs ys h.1, +-suc i (length xs))

index_zero_end :
    (n lo hi : ℕ)
    → index_zero n (lo ∷ hi ∷ 0x00 ∷ [])
      ≡ some (if lo == 0 then n else if hi == 0 then n + 1 else n + 2)
unfolding index_zero
index_zero_end n lo hi = ground arith

abbrev open_front : Text → ℕ → Bytes
open_front name kind = le16 command ++ (le16 1 ++ (le32 kind ++ name))

-- The three bytes behind the name.
open_tail :
    (name : Text) (kind id : ℕ)
    → (length (open_bytes name kind id) ≡ 11 + length name)
      × (byte_at (open_bytes name kind id) (8 + length name) ≡ id % 256)
      × (byte_at (open_bytes name kind id) (9 + length name) ≡ id / 256)
      × (byte_at (open_bytes name kind id) (10 + length name) ≡ 0)
open_tail name kind id =
    let rest : Bytes = le16 id ++ 0x00 ∷ [] in
    (
      omega (arith, length-append name rest),
      get_or_append_length (8 + length name) 0 (open_front name kind) rest 0 (omega arith),
      get_or_append_length (9 + length name) 1 (open_front name kind) rest 0 (omega arith),
      get_or_append_length (10 + length name) 2 (open_front name kind) rest 0 (omega arith),
    )

-- The id read from a device's channel open without extra data, for a name without zero bytes, is
-- the id that was sent when its low byte is not zero. When it is, the low byte is taken for the
-- name's terminator, and the high byte is read as the id.
pub device_req_id-channel_open_body :
    (name : Text) (kind id : ℕ) {body : Bytes}
    → All (λ c. 0 < c) name
    → channel_open_body name kind 1 id none 0 ≡ ok body
    → device_req_id body ≡ (if id % 256 == 0 then id / 256 else id)
unfolding device_req_id
device_req_id-channel_open_body name kind id h e =
    let (range, shape) = open_inversion name kind id e in
    rw
      (
        shape,
        index_zero-append 8 name (le16 id ++ 0x00 ∷ []) h,
        index_zero_end (8 + length name) (id % 256) (id / 256),
      )
      (ground (arith, open_tail name kind id))
