-- ===== src/Shared/Decimal.antt =====
-- Numbers printed in decimal, as `%u` of a uint32_t and `%d` of an int32_t do, and texts searched.
use meshcore_open_sdr.Shared.{
  Bool, List, [], false, suc, true, zero, ℕ, ◌%◌, ◌&&◌, ◌+◌, ◌-◌, ◌/◌, ◌^◌, ◌||◌, ◌∷◌,
}
use meshcore_open_sdr.Shared.Tests.{if◌then◌else◌, ltb, ◌==◌}
use meshcore_open_sdr.Shared.Text.{Str, is_empty}

-- `n + 1` rounds are enough: a round leaves a tenth of the number, and the last one leaves 0.
unfoldable pub show_loop : ℕ → ℕ → Str → Str
show_loop zero n acc = acc
show_loop (suc fuel) n acc =
    let acc' : Str = (b'0' + n % 10) ∷ acc in
    elim (n / 10 == 0) [ true ↦ acc' | false ↦ show_loop fuel (n / 10) acc' ]

unfoldable pub show_nat : ℕ → Str
unfolding show_loop
show_nat n = show_loop (suc n) n []

-- An int32_t is given by its bit pattern.
unfoldable pub show_i32 : ℕ → Str
unfolding show_nat
show_i32 w = if ltb w (2 ^ 31) then show_nat w else b'-' ∷ show_nat (2 ^ 32 - w)

unfoldable pub has_prefix : Str → Str → Bool
has_prefix [] s = true
has_prefix (c ∷ p) [] = false
has_prefix (c ∷ p) (d ∷ s) = c == d && has_prefix p s

-- `s.find(p) != npos`
unfoldable pub has_substring : Str → Str → Bool
unfolding has_prefix
has_substring p [] = is_empty p
has_substring p (c ∷ s) = has_prefix p (c ∷ s) || has_substring p s

abbrev pub extend_first : ℕ → List Str → List Str
extend_first c [] = (c ∷ []) ∷ []
extend_first c (l ∷ ls) = (c ∷ l) ∷ ls

-- `std::getline` until the end of the file: the lines without their newlines.
unfoldable pub lines : Str → List Str
lines [] = []
lines (c ∷ s) = let rest = lines s in if c == 10 then [] ∷ rest else extend_first c rest
