-- ===== src/Rtsp/Ulaw/Accuracy.antt =====
-- The table against the A-law decoder of G.711, which the source does not hold.
use comelit_man.Prelude.{
  ℕ, ◌+◌, ◌-◌, ◌*◌, ◌/◌, ◌%◌, ◌^◌, ◌≤◌, ◌<◌, ◌≡◌, refl, Bool, true, false, ◌&&◌, arith, ltb, leb,
  ◌==◌, if◌then◌else◌, ltb→lt, leb→le,
}
use comelit_man.Bits.{all_below, all_below_lem, bit_xor}
use comelit_man.Rtsp.Ulaw.{Sample, ulaw_to_linear, ulaw_to_alaw}

-- The sample that an A-law byte stands for, in 16-bit units.
abbrev alaw_segment : ℕ → ℕ
alaw_segment a = bit_xor a 0x55 / 16 % 8

abbrev pub alaw_magnitude : ℕ → ℕ
alaw_magnitude a =
    let step = bit_xor a 0x55 % 16 * 16 in
    let seg = alaw_segment a in if seg == 0 then step + 8 else (step + 0x108) * 2 ^ (seg - 1)

abbrev pub alaw_negative : ℕ → Bool
alaw_negative a = ltb (bit_xor a 0x55) 128

-- Half the width of the A-law step that the byte stands for.
abbrev pub half_step : ℕ → ℕ
half_step a = if alaw_segment a == 0 then 8 else 2 ^ (alaw_segment a + 2)

abbrev same_sign : Bool → Bool → Bool
same_sign true true = true
same_sign false false = true
same_sign _ _ = false

abbrev is_accurate : ℕ → Sample → Bool
is_accurate a s =
    ltb a 256
    && same_sign (alaw_negative a) s.negative
    && leb s.magnitude (alaw_magnitude a + half_step a)
    && leb (alaw_magnitude a) (s.magnitude + half_step a)

abbrev is_close : ℕ → Bool
is_close u = is_accurate (ulaw_to_alaw u) (ulaw_to_linear u)

is_close_table : all_below (λ u. is_close u) 256 ≡ true
unfolding ulaw_to_alaw all_below
is_close_table = refl

same_sign_eq : (b c : Bool) → same_sign b c ≡ true → b ≡ c
same_sign_eq true true h = refl
same_sign_eq false false h = refl
same_sign_eq true false h = cc
same_sign_eq false true h = cc

and_parts : (b c : Bool) → (b && c) ≡ true → (b ≡ true) × (c ≡ true)
and_parts b c h = (ground arith, ground arith)

accurate_of :
    (a : ℕ) (s : Sample)
    → is_accurate a s ≡ true
    → (a < 256)
      × (alaw_negative a ≡ s.negative)
      × (s.magnitude ≤ alaw_magnitude a + half_step a)
      × (alaw_magnitude a ≤ s.magnitude + half_step a)
accurate_of a s h =
    let byte = ltb a 256 in
    let sign = same_sign (alaw_negative a) s.negative in
    let above = leb s.magnitude (alaw_magnitude a + half_step a) in
    let below = leb (alaw_magnitude a) (s.magnitude + half_step a) in
    let (first, fourth) = and_parts (byte && sign && above) below h in
    let (front, third) = and_parts (byte && sign) above first in
    let (one, two) = and_parts byte sign front in
    (ltb→lt a 256 one, same_sign_eq _ _ two, leb→le _ _ third, leb→le _ _ fourth)

-- Every µ-law byte is mapped to an A-law byte of the same sign whose sample differs from the
-- µ-law sample by at most half an A-law step.
pub ulaw_to_alaw_accuracy :
    (u : ℕ)
    → u < 256
    → (ulaw_to_alaw u < 256)
      × (alaw_negative (ulaw_to_alaw u) ≡ (ulaw_to_linear u).negative)
      × ((ulaw_to_linear u).magnitude
          ≤ alaw_magnitude (ulaw_to_alaw u) + half_step (ulaw_to_alaw u))
      × (alaw_magnitude (ulaw_to_alaw u)
          ≤ (ulaw_to_linear u).magnitude + half_step (ulaw_to_alaw u))
ulaw_to_alaw_accuracy u h =
    accurate_of (ulaw_to_alaw u) (ulaw_to_linear u)
      (all_below_lem (λ u. is_close u) 256 u h is_close_table)
