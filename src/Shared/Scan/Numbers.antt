-- ===== src/Shared/Scan/Numbers.antt =====
-- What the scanner of sdr-node's files makes of a number that show_nat or show_i32 printed.
use meshcore_open_sdr.Shared.{
  Option, [], arith, false, inl, inr, none, refl, some, suc, true, zero, ℕ, ◌%◌, ◌*◌, ◌++◌, ◌+◌,
  ◌-◌, ◌/◌, ◌<◌, ◌^◌, ◌∙◌, ◌∷◌, ◌≡◌, ◌≤◌,
}
use meshcore_open_sdr.Shared.Decimal.{show_i32, show_loop, show_nat}
use meshcore_open_sdr.Shared.Lists.{length}
use meshcore_open_sdr.Shared.Scan.{
  is_blank, is_digit, read_digits, read_numeral, signed_digits, skip_blanks, value_or_zero,
}
use meshcore_open_sdr.Shared.Tests.{Bool-cases, ltb, ◌==◌}
use meshcore_open_sdr.Shared.Text.{Str}

-- A text that does not go on with a digit.
abbrev pub EndsNumber : Str → Type 0
EndsNumber [] = Unit {0}
EndsNumber (c ∷ s) = is_digit c ≡ false

read_digits-EndsNumber : (n : ℕ) (s : Str) → EndsNumber s → read_digits (some n) s ≡ (some n, s)
unfolding read_digits
read_digits-EndsNumber n [] h = refl
read_digits-EndsNumber n (c ∷ s) h = rw h

-- The last digit behind the digits in front of it.
read_digits_digit :
    (acc : Option ℕ) (d : ℕ) (s : Str)
    → d < 10
    → read_digits acc ((b'0' + d) ∷ s) ≡ read_digits (some (value_or_zero acc * 10 + d)) s
unfolding read_digits
read_digits_digit acc d s h =
    let digit : is_digit (b'0' + d) ≡ true = ground arith in
    let value : b'0' + d - b'0' ≡ d = omega arith in rw (digit, value)

show_loop_last :
    (fuel n : ℕ) (acc : Str)
    → (n / 10 == 0) ≡ true
    → show_loop (suc fuel) n acc ≡ (b'0' + n % 10) ∷ acc
unfolding show_loop
show_loop_last fuel n acc e = rw (e, show_loop)

show_loop_more :
    (fuel n : ℕ) (acc : Str)
    → (n / 10 == 0) ≡ false
    → show_loop (suc fuel) n acc ≡ show_loop fuel (n / 10) ((b'0' + n % 10) ∷ acc)
unfolding show_loop
show_loop_more fuel n acc e = rw (e, show_loop)

read_digits-show_loop :
    (fuel n : ℕ) (acc s : Str)
    → n < fuel
    → read_digits none (show_loop fuel n acc ++ s) ≡ read_digits (some n) (acc ++ s)
read_digits-show_loop zero n acc s h = absurd (omega arith)
read_digits-show_loop (suc fuel) n acc s h = elim (Bool-cases (n / 10 == 0)) [
  | inl e ↦
      let small : n % 10 ≡ n = ground arith in
      rw (show_loop_last fuel n acc e) (
        read_digits_digit none (n % 10) (acc ++ s) (omega arith)
        ∙ (let same : 0 * 10 + n % 10 ≡ n = omega arith in rw same))
  | inr e ↦ rw (show_loop_more fuel n acc e) (
      read_digits-show_loop fuel (n / 10) ((b'0' + n % 10) ∷ acc) s (ground arith)
      ∙ read_digits_digit (some (n / 10)) (n % 10) (acc ++ s) (omega arith)
      ∙ (let same : n / 10 * 10 + n % 10 ≡ n = omega arith in rw same))
]

read_digits-show_nat :
    (n : ℕ) (s : Str) → EndsNumber s → read_digits none (show_nat n ++ s) ≡ (some n, s)
unfolding show_nat
read_digits-show_nat n s h =
    read_digits-show_loop (suc n) n [] s (omega arith) ∙ read_digits-EndsNumber n s h

-- A printed number begins with a digit.
abbrev pub StartsDigit : Str → Type 0
StartsDigit s = (d : ℕ) × (r : Str) × (d < 10) × (s ≡ (b'0' + d) ∷ r)

show_loop-StartsDigit :
    (fuel n d : ℕ) (acc : Str) → d < 10 → StartsDigit (show_loop fuel n ((b'0' + d) ∷ acc))
unfolding show_loop
show_loop-StartsDigit zero n d acc h = (d, acc, h, refl)
show_loop-StartsDigit (suc fuel) n d acc h = elim (Bool-cases (n / 10 == 0)) [
  | inl e ↦
      rw (show_loop_last fuel n ((b'0' + d) ∷ acc) e) (n % 10, (b'0' + d) ∷ acc, omega arith, refl)
  | inr e ↦
      rw (show_loop_more fuel n ((b'0' + d) ∷ acc) e)
        (show_loop-StartsDigit fuel (n / 10) (n % 10) ((b'0' + d) ∷ acc) (omega arith))
]

pub show_nat-StartsDigit : (n : ℕ) → StartsDigit (show_nat n)
unfolding show_nat
show_nat-StartsDigit n = elim (Bool-cases (n / 10 == 0)) [
  | inl e ↦ rw (show_loop_last n n [] e) (n % 10, [], omega arith, refl)
  | inr e ↦
      rw (show_loop_more n n [] e) (show_loop-StartsDigit n (n / 10) (n % 10) [] (omega arith))
]

-- Blanks in front of a number are skipped, by a format and by the conversion alike.
pub skip_blanks-show_nat : (n : ℕ) (s : Str) → skip_blanks (show_nat n ++ s) ≡ show_nat n ++ s
unfolding skip_blanks
skip_blanks-show_nat n s =
    let (d, r, h, e) = show_nat-StartsDigit n in
    let solid : is_blank (b'0' + d) ≡ false = ground arith in rw (e, skip_blanks, solid)

signed_digits-show_nat :
    (n : ℕ) (s : Str)
    → EndsNumber s
    → signed_digits (show_nat n ++ s) ≡ some (record { minus = false; digits = n }, s)
signed_digits-show_nat n s h =
    let (d, r, lt, e) = show_nat-StartsDigit n in
    let no_minus : (b'0' + d == b'-') ≡ false = ground arith in
    let no_plus : (b'0' + d == b'+') ≡ false = ground arith in
    let read : read_digits none ((b'0' + d) ∷ (r ++ s)) ≡ (some n, s) =
      rw e at (read_digits-show_nat n s h) in
    rw (e, no_minus, no_plus, read)

pub read_numeral-show_nat :
    (n : ℕ) (s : Str)
    → EndsNumber s
    → read_numeral (show_nat n ++ s) ≡ some (record { minus = false; digits = n }, s)
unfolding read_numeral
read_numeral-show_nat n s h = rw (skip_blanks-show_nat n s) (signed_digits-show_nat n s h)

pub read_numeral-minus :
    (n : ℕ) (s : Str)
    → EndsNumber s
    → read_numeral (b'-' ∷ (show_nat n ++ s)) ≡ some (record { minus = true; digits = n }, s)
unfolding read_numeral skip_blanks
read_numeral-minus n s h = rw (read_digits-show_nat n s h)

-- The numbers with at most `k` digits are those below this power.
abbrev pub ten_to : ℕ → ℕ
ten_to zero = 1
ten_to (suc k) = 10 * ten_to k

length-show_loop :
    (fuel n k : ℕ) (acc : Str)
    → n < ten_to (suc k)
    → length (show_loop fuel n acc) ≤ suc k + length acc
length-show_loop zero n k acc h = unfold show_loop in omega arith
length-show_loop (suc fuel) n zero acc h =
    let last : (n / 10 == 0) ≡ true = ground arith in
    rw (show_loop_last fuel n acc last) (omega arith)
length-show_loop (suc fuel) n (suc k) acc h = elim (Bool-cases (n / 10 == 0)) [
  | inl e ↦ rw (show_loop_last fuel n acc e) (omega arith)
  | inr e ↦
      rw (show_loop_more fuel n acc e)
        (omega (arith, length-show_loop fuel (n / 10) k ((b'0' + n % 10) ∷ acc) (omega arith)))
]

pub length-show_nat : (n k : ℕ) → n < ten_to (suc k) → length (show_nat n) ≤ suc k
unfolding show_nat
length-show_nat n k h = omega (arith, length-show_loop (suc n) n k [] h)

le_of_not_ltb : (w : ℕ) → ltb w (2 ^ 31) ≡ false → 2 ^ 31 ≤ w
le_of_not_ltb w e = ground arith

pub length-show_i32 : (w : ℕ) → w < 2 ^ 32 → length (show_i32 w) ≤ 11
unfolding show_i32
length-show_i32 w h = elim (Bool-cases (ltb w (2 ^ 31))) [
  | inl e ↦ rw e (omega (arith, length-show_nat w 9 (omega arith)))
  | inr e ↦ rw e (omega (arith, length-show_nat (2 ^ 32 - w) 9 (omega (arith, le_of_not_ltb w e))))
]
