-- ===== src/Rtsp/Ulaw.antt =====
-- The µ-law to A-law table of rtsp_server.py.
pub mod Accuracy
use comelit_man.Prelude.{
  ℕ, ◌+◌, ◌-◌, ◌*◌, ◌/◌, ◌%◌, ◌^◌, Bool, ◌&&◌, List, [], ◌∷◌, ltb, leb, if◌then◌else◌,
}
use comelit_man.Bits.{bit_and, bit_or, bit_xor}

-- A signed sample: the sign is set for a negative number.
pub record Sample : Type 0 where
  pub negative : Bool
  pub magnitude : ℕ

-- `_ulaw2linear`
unfoldable pub ulaw_to_linear : ℕ → Sample
ulaw_to_linear u =
    let u_val = 255 - u in
    let t = ((u_val % 16) * 8 + 0x84) * 2 ^ (bit_and u_val 0x70 / 16) in
    record { negative = ltb 127 u_val && ltb 0x84 t; magnitude = t - 0x84 }

-- The number of the first segment end that the value does not pass; 8 if it passes all.
pub segment : ℕ → List ℕ → ℕ → ℕ
segment i [] v = 8
segment i (e ∷ ends) v = let later = segment (i + 1) ends v in if leb v e then i else later

abbrev pub segment_ends : List ℕ
segment_ends = 0x1f ∷ 0x3f ∷ 0x7f ∷ 0xff ∷ 0x1ff ∷ 0x3ff ∷ 0x7ff ∷ 0xfff ∷ []

-- `pcm_val >> 3` rounds down, so a negative value -m becomes -ceil(m / 8), and `-pcm_val - 1` is
-- ceil(m / 8) - 1.
abbrev pub magnitude_13 : Sample → ℕ
magnitude_13 s = if s.negative then (s.magnitude + 7) / 8 - 1 else s.magnitude / 8

-- `_linear2alaw`
unfoldable pub linear_to_alaw : Sample → ℕ
unfolding segment
linear_to_alaw s =
    let v = magnitude_13 s in
    let mask = if s.negative then 0x55 else 0xd5 in
    let seg = segment 0 segment_ends v in
    if leb 8 seg
    then bit_xor 0x7f mask
    else bit_xor (bit_or (seg * 16) (if ltb seg 2 then v / 2 % 16 else v / 2 ^ seg % 16)) mask

-- An entry of `_ULAW_TO_ALAW`.
unfoldable pub ulaw_to_alaw : ℕ → ℕ
unfolding ulaw_to_linear linear_to_alaw
ulaw_to_alaw u = linear_to_alaw (ulaw_to_linear u)
