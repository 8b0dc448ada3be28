-- ===== src/Protocol/Call/Laws.antt =====
-- The layout of the call messages on arguments in range.
use comelit_man.Prelude.{
  Text, IsAscii, ℕ, ◌-◌, ◌^◌, ◌<◌, ◌≡◌, ap, ◌∙◌, [], ◌∷◌, ◌++◌, arith, length, replicate,
  length-append, length-take, length-replicate, ok,
}
use comelit_man.Bytes.{Bytes, le16, be16, le32, le32_at, unpack_le32}
use comelit_man.Bytes.Laws.{
  pack_le16-ok, pack_be16-ok, pack_le32-ok, encode_ascii-ok, unpack_le32-ok, le32_behind,
}
use comelit_man.Protocol.Ctpp.{separator}
use comelit_man.Protocol.Call.{
  call_addresses, build_ctpp_video_msg, pad_ten, encode_door_open_during_video,
}

pub call_addresses-ok :
    (caller callee : Text)
    → IsAscii caller
    → IsAscii callee
    → call_addresses caller callee ≡ ok ((caller ++ 0x00 ∷ []) ++ (callee ++ 0x00 ∷ 0x00 ∷ []))
unfolding call_addresses
call_addresses-ok caller callee h k = rw (encode_ascii-ok caller h, encode_ascii-ok callee k)

pub build_ctpp_video_msg-ok :
    (prefix ts action flags : ℕ) (caller callee : Text) (extra : Bytes)
    → prefix < 2 ^ 16
    → ts < 2 ^ 32
    → action < 2 ^ 16
    → flags < 2 ^ 16
    → IsAscii caller
    → IsAscii callee
    → build_ctpp_video_msg prefix ts action flags caller callee extra
      ≡ ok (
          le16 prefix
          ++ (le32 ts
              ++ (be16 action
                  ++ (be16 flags
                      ++ (extra
                          ++ (separator
                              ++ ((caller ++ 0x00 ∷ []) ++ (callee ++ 0x00 ∷ 0x00 ∷ []))))))))
unfolding build_ctpp_video_msg
build_ctpp_video_msg-ok prefix ts action flags caller callee extra hp ht ha hf hc hd = rw (
  pack_le16-ok prefix hp,
  pack_le32-ok ts ht,
  pack_be16-ok action ha,
  pack_be16-ok flags hf,
  call_addresses-ok caller callee hc hd,
)

pub length-pad_ten : (b : Bytes) → length (pad_ten b) ≡ 10
unfolding pad_ten
length-pad_ten b = omega (
  arith,
  length-take 10 (b ++ replicate (10 - length b) 0x00),
  length-append b (replicate (10 - length b) 0x00),
  length-replicate {A = ℕ} (10 - length b) 0x00,
)

abbrev door_open_bytes : Text → Text → ℕ → ℕ → Bytes
door_open_bytes our entrance counter relay =
    le16 0x1840
    ++ (le32 counter
        ++ (be16 0x000d
            ++ (be16 0x002d
                ++ (pad_ten entrance
                    ++ (le32 relay ++ (separator ++ (pad_ten our ++ pad_ten entrance)))))))

door_open_inversion :
    (our entrance : Text) (counter relay : ℕ) {m : Bytes}
    → encode_door_open_during_video our entrance counter relay ≡ ok m
    → (counter < 2 ^ 32) × (relay < 2 ^ 32) × (m ≡ door_open_bytes our entrance counter relay)
unfolding encode_door_open_during_video
door_open_inversion our entrance counter relay e = (ground arith, ground arith, ground arith)

length-door_open_bytes :
    (our entrance : Text) (counter relay : ℕ)
    → length (door_open_bytes our entrance counter relay) ≡ 48
length-door_open_bytes our entrance counter relay = omega (
  arith,
  length-append (pad_ten entrance) (le32 relay ++ (separator ++ (pad_ten our ++ pad_ten entrance))),
  length-append (pad_ten our) (pad_ten entrance),
  length-pad_ten our,
  length-pad_ten entrance,
)

relay_field :
    (our entrance : Text) (counter relay : ℕ)
    → relay < 2 ^ 32
    → le32_at (door_open_bytes our entrance counter relay) 20 ≡ relay
relay_field our entrance counter relay h =
    le32_behind 20
      (le16 0x1840 ++ (le32 counter ++ (be16 0x000d ++ (be16 0x002d ++ pad_ten entrance))))
      (separator ++ (pad_ten our ++ pad_ten entrance)) relay
      (omega (arith, length-pad_ten entrance)) h

-- A door-open message for an active call, whatever the addresses, has 48 bytes; the relay index
-- stands at offset 20 and the call counter at offset 2.
pub door_open_layout :
    (our entrance : Text) (counter relay : ℕ) {m : Bytes}
    → encode_door_open_during_video our entrance counter relay ≡ ok m
    → (length m ≡ 48) × (unpack_le32 m 2 ≡ ok counter) × (unpack_le32 m 20 ≡ ok relay)
door_open_layout our entrance counter relay e =
    let (hc, hr, shape) = door_open_inversion our entrance counter relay e in
    let size = length-door_open_bytes our entrance counter relay in
    rw shape (
      size,
      unpack_le32-ok _ 2 (omega (arith, size)) ∙ ap ok (omega arith),
      unpack_le32-ok _ 20 (omega (arith, size)) ∙ ap ok (relay_field our entrance counter relay hr),
    )
