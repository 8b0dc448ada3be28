-- ===== src/Vip/Message/Layout.antt =====
-- The messages of protocol.py are parsed to their own fields.
use comelit_man.Prelude.{
  Text, ℕ, ◌+◌, ◌^◌, ◌<◌, ◌≡◌, refl, ap, inl, inr, some, ◌++◌, arith, le→ltb, le→leb, length,
  Result-cases, ok,
}
use comelit_man.Bytes.{Bytes, le16, be16, le32}
use comelit_man.Protocol.Call.{call_addresses, build_ctpp_video_msg}
use comelit_man.Vip.Message.{Message, message_of, parse_ctpp_message}
use comelit_man.Vip.Address.{find_addresses}
use comelit_man.Protocol.Ctpp.{separator}

abbrev video_msg_bytes : ℕ → ℕ → ℕ → ℕ → Bytes → Bytes
video_msg_bytes prefix ts action flags rest =
    le16 prefix ++ (le32 ts ++ (be16 action ++ (be16 flags ++ rest)))

build_inversion :
    (prefix ts action flags : ℕ) (caller callee : Text) (extra : Bytes) {m : Bytes}
    → build_ctpp_video_msg prefix ts action flags caller callee extra ≡ ok m
    → (prefix < 2 ^ 16)
      × (ts < 2 ^ 32)
      × (action < 2 ^ 16)
      × (flags < 2 ^ 16)
      × ((rest : Bytes) × (m ≡ video_msg_bytes prefix ts action flags rest))
unfolding build_ctpp_video_msg
build_inversion prefix ts action flags caller callee extra {m} e =
    let (addresses, e1, e2) : (a : Bytes) × (call_addresses caller callee ≡ ok a)
        × (m ≡ video_msg_bytes prefix ts action flags (extra ++ (separator ++ a))) =
      elim (Result-cases (call_addresses caller callee)) [
        | inl (a, h) ↦ (a, h, ground arith)
        | inr (x, h) ↦ absurd (ground arith)
      ] in
    (ground arith, ground arith, ground arith, ground arith, (_, e2))

-- A signalling message is parsed to the prefix, the timestamp, the action and the flags that it
-- was built from.
pub parse-build_ctpp_video_msg :
    (prefix ts action flags : ℕ) (caller callee : Text) (extra : Bytes) {m : Bytes}
    → build_ctpp_video_msg prefix ts action flags caller callee extra ≡ ok m
    → (msg : Message) × (parse_ctpp_message m ≡ some msg)
      × (msg.prefix ≡ prefix)
      × (msg.timestamp ≡ ts)
      × (msg.action ≡ action)
      × (msg.flags ≡ some flags)
      × (msg.addresses ≡ find_addresses (length m) m)
unfolding parse_ctpp_message message_of
parse-build_ctpp_video_msg prefix ts action flags caller callee extra {m} e =
    let (hp, ht, ha, hf, (rest, shape)) =
      build_inversion prefix ts action flags caller callee extra e in
    let size : length (video_msg_bytes prefix ts action flags rest) ≡ 10 + length rest =
      omega arith in
    rw shape (
      message_of (video_msg_bytes prefix ts action flags rest),
      rw (le→ltb (length (video_msg_bytes prefix ts action flags rest)) 8 (omega (arith, size)))
          refl,
      omega arith,
      omega arith,
      omega arith,
      rw (le→leb 10 (length (video_msg_bytes prefix ts action flags rest)) (omega (arith, size)))
          (ap some (omega arith)),
      refl,
    )
