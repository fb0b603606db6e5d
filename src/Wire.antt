-- ===== src/Wire.antt =====
-- Bytes on the wire, of sdr-node/src/node.cpp: the little-endian words of the frames, and the
-- signed bytes in which signal strengths travel.
pub mod Words
use meshcore_open_sdr.Shared.{[], min, ℕ, ◌%◌, ◌*◌, ◌++◌, ◌+◌, ◌-◌, ◌/◌, ◌<◌, ◌^◌, ◌∷◌}
use meshcore_open_sdr.Shared.Int.{neg, negsuc, pos, sub_ℕ, ℤ}
use meshcore_open_sdr.Shared.Lists.{drop, get_or, take}
use meshcore_open_sdr.Shared.Text.{Bytes}

abbrev pub IsByte : ℕ → Type 0
IsByte b = b < 256

abbrev pub IsU32 : ℕ → Type 0
IsU32 w = w < 2 ^ 32

-- The four bytes of a uint32_t, lowest first.
abbrev pub u32 : ℕ → Bytes
u32 x = x % 256 ∷ (x / 2 ^ 8 % 256) ∷ (x / 2 ^ 16 % 256) ∷ (x / 2 ^ 24 % 256) ∷ []

unfoldable pub put_u32 : Bytes → ℕ → Bytes
put_u32 v x = v ++ u32 x

-- `getU32(f.data() + i)`: the shifted bytes do not overlap, so `|` is `+`.
unfoldable pub get_u32 : Bytes → ℕ → ℕ
get_u32 f i =
    get_or f i 0
    + get_or f (i + 1) 0 * 2 ^ 8
    + get_or f (i + 2) 0 * 2 ^ 16
    + get_or f (i + 3) 0 * 2 ^ 24

-- `(f.begin() + i, f.begin() + i + n)`
abbrev pub slice : ℕ → ℕ → Bytes → Bytes
slice i n f = take n (drop i f)

-- A signal-to-noise ratio is a whole number of hundredths of a decibel, as lora_rx prints it.
-- `(int)lrintf(snr * 4.0f)`: quarters of a decibel, to the nearest; hundredths meet no tie.
unfoldable pub snr_quarters : ℤ → ℤ
snr_quarters (pos n) = pos ((n + 12) / 25)
snr_quarters (negsuc n) = neg ((n + 13) / 25)

-- `(int)(-105 + snr)`: whole decibels, towards zero.
abbrev decibels : ℤ → ℤ
decibels (pos d) = pos (d / 100)
decibels (negsuc d) = neg ((d + 1) / 100)

unfoldable pub rssi_of : ℤ → ℤ
rssi_of (pos n) = decibels (sub_ℕ n 10500)
rssi_of (negsuc n) = decibels (negsuc (n + 10500))

-- `(uint8_t)(int8_t)std::max(-128, std::min(127, v))`
unfoldable pub clamp_byte : ℤ → ℕ
clamp_byte (pos n) = min n 127
clamp_byte (negsuc n) = 255 - min n 127
