-- ===== src/Shared/Text.antt =====
-- A `std::string` as the list of its bytes: equality, order, and what the program does with NULs.
use meshcore_open_sdr.Shared.{
  Bool, List, [], arith, false, refl, true, ℕ, ◌&&◌, ◌+◌, ◌||◌, ◌↔◌, ◌∷◌, ◌≡◌, ◌≤◌,
}
use meshcore_open_sdr.Shared.Lists.{length}
use meshcore_open_sdr.Shared.Tests.{if◌then◌else◌, leb, ltb, ◌==◌}
use Prim.Native.Char.{code}
use Prim.Native.String.{String}

abbrev pub Bytes : Type 0
Bytes = List ℕ

abbrev pub Str : Type 0
Str = List ℕ

-- The bytes of an ASCII text.
abbrev pub codes : String → Str
codes String.[] = []
codes (String.◌∷◌ c s) = code c ∷ codes s

abbrev pub is_empty {ℓ} : {A : Type ℓ} → List A → Bool
is_empty [] = true
is_empty (x ∷ xs) = false

unfoldable pub str_eq : Str → Str → Bool
str_eq [] [] = true
str_eq [] (y ∷ ys) = false
str_eq (x ∷ xs) [] = false
str_eq (x ∷ xs) (y ∷ ys) = x == y && str_eq xs ys

pub str_eq_iff : (s t : Str) → (str_eq s t ≡ true) ↔ (s ≡ t)
unfolding str_eq
str_eq_iff [] [] = ground arith
str_eq_iff [] (y ∷ ys) = ground arith
str_eq_iff (x ∷ xs) [] = ground arith
str_eq_iff (x ∷ xs) (y ∷ ys) = ground (arith, str_eq_iff xs ys)

-- `std::string::operator<`: lexicographic on the bytes.
unfoldable pub str_lt : Str → Str → Bool
str_lt s [] = false
str_lt [] (y ∷ ys) = true
str_lt (x ∷ xs) (y ∷ ys) = ltb x y || (x == y && str_lt xs ys)

pub str_lt_irrefl : (s : Str) → str_lt s s ≡ false
unfolding str_lt
str_lt_irrefl [] = refl
str_lt_irrefl (x ∷ xs) = ground (arith, str_lt_irrefl xs)

pub str_lt_trans : (s t u : Str) → str_lt s t ≡ true → str_lt t u ≡ true → str_lt s u ≡ true
unfolding str_lt
str_lt_trans [] [] u h k = cc
str_lt_trans [] (y ∷ ys) [] h k = cc
str_lt_trans [] (y ∷ ys) (z ∷ zs) h k = refl
str_lt_trans (x ∷ xs) [] u h k = cc
str_lt_trans (x ∷ xs) (y ∷ ys) [] h k = cc
str_lt_trans (x ∷ xs) (y ∷ ys) (z ∷ zs) h k = ground (arith, str_lt_trans xs ys zs)

pub str_lt_total : (s t : Str) → str_eq s t ≡ false → str_lt s t ≡ false → str_lt t s ≡ true
unfolding str_eq str_lt
str_lt_total [] [] h k = cc
str_lt_total [] (y ∷ ys) h k = cc
str_lt_total (x ∷ xs) [] h k = refl
str_lt_total (x ∷ xs) (y ∷ ys) h k = ground (arith, str_lt_total xs ys)

-- `auto nul = s.find('\0'); if (nul != npos) s.resize(nul);`, and the text that a C string holds.
unfoldable pub until_nul : Str → Str
until_nul [] = []
until_nul (c ∷ s) = if c == 0 then [] else c ∷ until_nul s

pub length-until_nul : (s : Str) → length (until_nul s) ≤ length s
unfolding until_nul
length-until_nul [] = omega arith
length-until_nul (c ∷ s) = ground (arith, length-until_nul s)

-- `std::transform(.., ::tolower)` in the C locale.
abbrev pub lower : ℕ → ℕ
lower c = if leb b'A' c && leb c b'Z' then c + 32 else c

unfoldable pub to_lower : Str → Str
to_lower [] = []
to_lower (c ∷ s) = lower c ∷ to_lower s
