-- ===== src/Shared/Scan.antt =====
-- What sdr-node uses of the C library to read text: fgets, isspace, strtol behind atoi and atol,
-- and sscanf with the conversions that its formats have. A number that a conversion cannot hold
-- is cut off as glibc does it: by the limits of long, and then to the width of the result.
pub mod Numbers
pub mod Fields
pub mod Lines
use meshcore_open_sdr.Shared.{
  Bool, List, Option, [], false, map, max, min, none, some, suc, true, zero, ℕ, ◌%◌, ◌&&◌, ◌*◌, ◌+◌,
  ◌-◌, ◌^◌, ◌||◌, ◌∷◌,
}
use meshcore_open_sdr.Shared.Decimal.{extend_first}
use meshcore_open_sdr.Shared.Tests.{if◌then◌else◌, leb, ltb, ◌==◌}
use meshcore_open_sdr.Shared.Text.{Str, until_nul}

-- The lines that `fgets` returns with room for `max` bytes: a line ends behind a newline, or where
-- the room is used up. `room` is what is left in the line at hand.
unfoldable pub fgets_lines : ℕ → ℕ → Str → List Str
fgets_lines max room [] = []
fgets_lines max room (c ∷ s) =
    let ended = c == 10 || leb room 1 in
    let rest = fgets_lines max (if ended then max else room - 1) s in
    if ended then (c ∷ []) ∷ rest else extend_first c rest

-- `while (fgets(line, size, f))`, each line as the C string that it is.
unfoldable pub fgets_all : ℕ → Str → List Str
unfolding fgets_lines until_nul
fgets_all size s = map until_nul (fgets_lines (size - 1) (size - 1) s)

-- `isspace` in the C locale.
abbrev pub is_blank : ℕ → Bool
is_blank c = c == b' ' || (leb 9 c && leb c 13)

unfoldable pub skip_blanks : Str → Str
skip_blanks [] = []
skip_blanks (c ∷ s) = let rest = skip_blanks s in if is_blank c then rest else c ∷ s

abbrev pub is_digit : ℕ → Bool
is_digit c = leb b'0' c && leb c b'9'

abbrev pub value_or_zero : Option ℕ → ℕ
value_or_zero none = 0
value_or_zero (some n) = n

-- The decimal digits in front of a text, and what follows them; `none` where there are none.
unfoldable pub read_digits : Option ℕ → Str → Option ℕ × Str
read_digits acc [] = (acc, [])
read_digits acc (c ∷ s) =
    let rest = read_digits (some (value_or_zero acc * 10 + (c - b'0'))) s in
    if is_digit c then rest else (acc, c ∷ s)

-- A number as it stands in a text: whether there is a minus sign, and the digits' value.
pub record Numeral : Type 0 where
  pub minus : Bool
  pub digits : ℕ

abbrev pub after_digits : Bool → Option ℕ × Str → Option (Numeral × Str)
after_digits minus (none, s) = none
after_digits minus (some n, s) = some (record { minus = minus; digits = n }, s)

abbrev pub signed_digits : Str → Option (Numeral × Str)
signed_digits [] = none
signed_digits (c ∷ s) =
    let unsigned = after_digits false (read_digits none (c ∷ s)) in
    let plus = after_digits false (read_digits none s) in
    let minus = after_digits true (read_digits none s) in
    if c == b'-' then minus else if c == b'+' then plus else unsigned

unfoldable pub read_numeral : Str → Option (Numeral × Str)
unfolding skip_blanks read_digits
read_numeral s = signed_digits (skip_blanks s)

-- The value of a bit pattern of `w` bits behind a conversion to long.
unfoldable pub long_bits : ℕ → Numeral → ℕ
long_bits w a =
    if a.minus
    then (2 ^ w - min a.digits (2 ^ 63) % 2 ^ w) % 2 ^ w
    else min a.digits (2 ^ 63 - 1) % 2 ^ w

-- The same behind a conversion to unsigned long, which negates a number with a minus sign.
unfoldable pub ulong_bits : ℕ → Numeral → ℕ
ulong_bits w a =
    if ltb a.digits (2 ^ 64)
    then (if a.minus then (2 ^ w - a.digits % 2 ^ w) % 2 ^ w else a.digits % 2 ^ w)
    else 2 ^ w - 1

-- A text with no number is 0.
abbrev pub bits_or_zero : ℕ → Option (Numeral × Str) → ℕ
bits_or_zero w none = 0
bits_or_zero w (some (a, rest)) = long_bits w a

-- `atoi(s)` and `atol(s)`, cast to a word of `w` bits.
unfoldable pub ato_bits : ℕ → Str → ℕ
unfolding read_numeral long_bits until_nul
ato_bits w s = bits_or_zero w (read_numeral (until_nul s))

-- A piece of a format: white space, another byte that has to stand there, `%u`, `%d`,
-- `%<width>[^<stop>]`, and a conversion of a floating-point number.
pub data Directive : Type 0 where
  blanks : Directive
  byte : ℕ → Directive
  unsigned : Directive
  signed : Directive
  until : ℕ → ℕ → Directive
  real : Directive

-- What a conversion stores.
pub data Scanned : Type 0 where
  word : ℕ → Scanned
  text : Str → Scanned

-- At most `width` bytes up to the byte `stop`.
unfoldable pub read_until : ℕ → ℕ → Str → Str × Str
read_until zero stop s = ([], s)
read_until (suc width) stop [] = ([], [])
read_until (suc width) stop (c ∷ s) =
    let rest : Str × Str = (let (a, b) = read_until width stop s in (c ∷ a, b)) in
    if c == stop then ([], c ∷ s) else rest

-- What a conversion leaves unread, with what it stored; `none` is a failure, which ends the scan.
abbrev pub Conversion : Type 0
Conversion = Option (Option Scanned × Str)

abbrev pub word_of : (Numeral → ℕ) → Option (Numeral × Str) → Conversion
word_of bits none = none
word_of bits (some (a, s)) = some (some (word (bits a)), s)

abbrev pub text_of : Str × Str → Conversion
text_of ([], s) = none
text_of (c ∷ a, s) = some (some (text (c ∷ a)), s)

abbrev real_of : Option (Str × Str) → Conversion
real_of none = none
real_of (some (a, s)) = some (some (text a), s)

abbrev literal : ℕ → Str → Conversion
literal c [] = none
literal c (d ∷ s) = if c == d then some (none, s) else none

-- Floating-point numbers are left to `reals`, which cuts the longest text of one off the front.
unfoldable pub convert : (Str → Option (Str × Str)) → Directive → Str → Conversion
unfolding skip_blanks read_numeral read_until ulong_bits long_bits
convert reals blanks s = some (none, skip_blanks s)
convert reals (byte c) s = literal c s
convert reals unsigned s = word_of (ulong_bits 32) (read_numeral s)
convert reals signed s = word_of (long_bits 32) (read_numeral s)
convert reals (until width stop) s = text_of (read_until width stop s)
convert reals real s = real_of (reals (skip_blanks s))

-- What `sscanf` stores before the first failure; the length is the number that it returns, where
-- the source compares that with something above 0.
unfoldable pub scan_with : (Str → Option (Str × Str)) → List Directive → Str → List Scanned
scan_with reals [] s = []
scan_with reals (d ∷ ds) s = elim (convert reals d s) [
  | none ↦ []
  | some (none, rest) ↦ scan_with reals ds rest
  | some (some v, rest) ↦ v ∷ scan_with reals ds rest
]

abbrev pub no_reals : Str → Option (Str × Str)
no_reals s = none

-- A format with no floating-point conversion.
unfoldable pub sscanf : List Directive → Str → List Scanned
unfolding scan_with convert
sscanf = scan_with no_reals

-- The pieces of a format that are bytes without white space.
abbrev pub bytes : Str → List Directive
bytes [] = []
bytes (c ∷ s) = byte c ∷ bytes s
