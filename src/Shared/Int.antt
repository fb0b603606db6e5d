-- ===== src/Shared/Int.antt =====
-- Signed integers over the native numbers; `negsuc n` is -(n + 1).
use meshcore_open_sdr.Shared.{ℕ, ◌-◌}
use meshcore_open_sdr.Shared.Tests.{if◌then◌else◌, leb}

pub data ℤ : Type 0 where
  pos : ℕ → ℤ
  negsuc : ℕ → ℤ

-- a - b, as an integer.
abbrev pub sub_ℕ : ℕ → ℕ → ℤ
sub_ℕ a b = if leb b a then pos (a - b) else negsuc (b - a - 1)

abbrev pub neg : ℕ → ℤ
neg n = sub_ℕ 0 n
