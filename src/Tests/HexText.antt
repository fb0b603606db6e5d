-- ===== src/Tests/HexText.antt =====
-- That the sample library reads the hex text that it writes.
use meshcore_open_sdr.Shared.{[], arith, refl, some, true, ℕ, ◌%◌, ◌*◌, ◌+◌, ◌/◌, ◌<◌, ◌∷◌, ◌≡◌}
use meshcore_open_sdr.Config.Channels.{all_hex, is_hex_digit}
use meshcore_open_sdr.Library.{HexDigits, HexInverts}
use meshcore_open_sdr.Shared.Lists.{All, length}
use meshcore_open_sdr.Shared.Text.{Bytes, lower, to_lower}
use meshcore_open_sdr.Tests.Samples.{digit, digit_value, from_hex, sample_lib, to_hex}
use meshcore_open_sdr.Wire.{IsByte}

digit_back : (d : ℕ) → d < 16 → digit_value (lower (digit d)) ≡ d
digit_back d h = ground arith

pub from_hex-to_hex : (bs : Bytes) → All IsByte bs → from_hex (to_lower (to_hex bs)) ≡ some bs
unfolding to_lower
from_hex-to_hex [] h = refl
from_hex-to_hex (b ∷ bs) h =
    let hi = digit_back (b / 16) (omega (arith, h.0)) in
    let lo = digit_back (b % 16) (omega arith) in
    let e : b / 16 * 16 + b % 16 ≡ b = omega arith in rw (from_hex-to_hex bs h.1, hi, lo, e)

pub sample_lib-HexInverts : HexInverts sample_lib
sample_lib-HexInverts = record { read_back = from_hex-to_hex; read_empty = refl }

digit-hex : (d : ℕ) → d < 16 → is_hex_digit (digit d) ≡ true
digit-hex d h = ground arith

to_hex-all_hex : (bs : Bytes) → All IsByte bs → all_hex (to_hex bs) ≡ true
unfolding all_hex
to_hex-all_hex [] h = refl
to_hex-all_hex (b ∷ bs) h = rw (
  digit-hex (b / 16) (omega (arith, h.0)),
  digit-hex (b % 16) (omega arith),
  to_hex-all_hex bs h.1,
)

length-to_hex : (bs : Bytes) → length (to_hex bs) ≡ 2 * length bs
length-to_hex [] = omega arith
length-to_hex (b ∷ bs) = omega (arith, length-to_hex bs)

digit_here : (d : ℕ) → d < 16 → digit_value (digit d) ≡ d
digit_here d h = ground arith

from_hex_here : (bs : Bytes) → All IsByte bs → from_hex (to_hex bs) ≡ some bs
from_hex_here [] h = refl
from_hex_here (b ∷ bs) h =
    let hi = digit_here (b / 16) (omega (arith, h.0)) in
    let lo = digit_here (b % 16) (omega arith) in
    let e : b / 16 * 16 + b % 16 ≡ b = omega arith in rw (from_hex_here bs h.1, hi, lo, e)

pub sample_lib-HexDigits : HexDigits sample_lib
sample_lib-HexDigits = record {
  digits = to_hex-all_hex;
  two_each = length-to_hex;
  reads = from_hex_here;
}
