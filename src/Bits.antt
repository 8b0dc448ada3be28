-- ===== src/Bits.antt =====
-- `&`, `|` and `^` on bytes. A mask of low bits is a remainder (`x & 0xFFFF` is `x % 2 ^ 16`); for
-- the other masks a fact about one byte is checked at all its values.
pub use Prim.Native.Nat.{bit_and, bit_or, bit_xor}
use comelit_man.Prelude.{
  ℕ, zero, suc, ◌+◌, ◌*◌, ◌/◌, ◌%◌, ◌<◌, ◌≡◌, refl, Bool, true, ◌&&◌, arith, ◌==◌, ==_iff,
}

-- A test that holds of every number below a bound, tried from the bound down.
unfoldable pub all_below : (ℕ → Bool) → ℕ → Bool
all_below test zero = true
all_below test (suc top) = all_below test top && test top

pub all_below_lem :
    (test : ℕ → Bool) (bound k : ℕ) → k < bound → all_below test bound ≡ true → test k ≡ true
unfolding all_below
all_below_lem test zero k below tried = absurd (omega arith)
all_below_lem test (suc top) k below tried = ground (arith, all_below_lem test top k)

-- One table for two functions of a byte.
module _ (f g : ℕ → ℕ) (table : all_below (λ b. f b == g b) 256 ≡ true) where
  pub same_on_bytes : (x : ℕ) → x < 256 → f x ≡ g x
  same_on_bytes x h = (==_iff (f x) (g x)).0 (all_below_lem _ 256 x h table)

pub byte_and_e0 : (x : ℕ) → x < 256 → bit_and x 0xe0 ≡ x / 32 * 32
unfolding all_below
byte_and_e0 = same_on_bytes (λ x. bit_and x 0xe0) (λ x. x / 32 * 32) refl

pub byte_and_80 : (x : ℕ) → x < 256 → bit_and x 0x80 ≡ x / 128 * 128
unfolding all_below
byte_and_80 = same_on_bytes (λ x. bit_and x 0x80) (λ x. x / 128 * 128) refl

pub byte_or_80 : (x : ℕ) → x < 256 → bit_or x 0x80 ≡ x % 128 + 128
unfolding all_below
byte_or_80 = same_on_bytes (λ x. bit_or x 0x80) (λ x. x % 128 + 128) refl

-- `(nal & 0xE0) | 28`, the FU indicator of a NAL header byte.
pub fu_indicator_lem : (x : ℕ) → x < 256 → bit_or (bit_and x 0xe0) 28 ≡ x / 32 * 32 + 28
unfolding all_below
fu_indicator_lem = same_on_bytes (λ x. bit_or (bit_and x 0xe0) 28) (λ x. x / 32 * 32 + 28) refl

-- The NAL header is rebuilt from the FU indicator and the type in the FU header.
pub rebuilt_header :
    (x : ℕ) → x < 256 → bit_or (bit_and (bit_or (bit_and x 0xe0) 28) 0xe0) (x % 32) ≡ x
unfolding all_below
rebuilt_header =
    same_on_bytes (λ x. bit_or (bit_and (bit_or (bit_and x 0xe0) 28) 0xe0) (x % 32)) (λ x. x) refl
