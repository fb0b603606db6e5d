-- ===== src/Shared/Scan/Fields.antt =====
-- What sscanf stores for the columns of a line that a node wrote: a number behind a tab, and a
-- text up to the byte at which its conversion stops.
use meshcore_open_sdr.Shared.{
  List, Option, [], ap, arith, false, inl, inr, none, refl, some, suc, true, zero, ℕ, ◌++◌, ◌-◌,
  ◌<◌, ◌^◌, ◌∙◌, ◌∷◌, ◌≡◌, ◌≢◌, ◌≤◌,
}
use meshcore_open_sdr.Shared.Decimal.{show_i32, show_nat}
use meshcore_open_sdr.Shared.Lists.{All, get_or, length}
use meshcore_open_sdr.Shared.Scan.{
  Directive, Scanned, blanks, convert, is_blank, long_bits, no_reals, read_until, scan_with, signed,
  skip_blanks, sscanf, text, text_of, ulong_bits, unsigned, until, word, word_of,
}
use meshcore_open_sdr.Shared.Scan.Numbers.{
  EndsNumber, read_numeral-minus, read_numeral-show_nat, skip_blanks-show_nat,
}
use meshcore_open_sdr.Shared.Tests.{Bool-cases, ltb, ltb→lt, lt→ltb, ◌==◌}
use meshcore_open_sdr.Shared.Text.{Str}

ulong_bits_small : (n : ℕ) → n < 2 ^ 32 → ulong_bits 32 (record { minus = false; digits = n }) ≡ n
unfolding ulong_bits
ulong_bits_small n h =
    let e : ltb n (2 ^ 64) ≡ true = lt→ltb _ _ (omega arith) in rw e (omega arith)

long_bits_small : (n : ℕ) → n < 2 ^ 31 → long_bits 32 (record { minus = false; digits = n }) ≡ n
unfolding long_bits
long_bits_small n h = omega arith

long_bits_minus :
    (w : ℕ)
    → w < 2 ^ 32
    → 2 ^ 31 ≤ w
    → long_bits 32 (record { minus = true; digits = 2 ^ 32 - w }) ≡ w
unfolding long_bits
long_bits_minus w h k = omega arith

pub long_bits_byte : (n : ℕ) → n < 2 ^ 8 → long_bits 8 (record { minus = false; digits = n }) ≡ n
unfolding long_bits
long_bits_byte n h = omega arith

module _ (reals : Str → Option (Str × Str)) (d : Directive) (ds : List Directive)
    (s rest : Str) where
  pub scan_with-stored :
      (v : Scanned)
      → convert reals d s ≡ some (some v, rest)
      → scan_with reals (d ∷ ds) s ≡ v ∷ scan_with reals ds rest
  unfolding scan_with
  scan_with-stored v e = rw (e, scan_with)

  pub scan_with-skipped :
      convert reals d s ≡ some (none, rest) → scan_with reals (d ∷ ds) s ≡ scan_with reals ds rest
  unfolding scan_with
  scan_with-skipped e = rw (e, scan_with)

  pub scan_with-failed : convert reals d s ≡ none → scan_with reals (d ∷ ds) s ≡ []
  unfolding scan_with
  scan_with-failed e = rw (e, scan_with)

blanks-show_nat :
    (reals : Str → Option (Str × Str)) (n : ℕ) (s : Str)
    → convert reals blanks (9 ∷ (show_nat n ++ s)) ≡ some (none, show_nat n ++ s)
unfolding convert skip_blanks
blanks-show_nat reals n s = ap (λ (t : Str). some (none, t)) (skip_blanks-show_nat n s)

unsigned-show_nat :
    (reals : Str → Option (Str × Str)) (n : ℕ) (s : Str)
    → n < 2 ^ 32
    → EndsNumber s
    → convert reals unsigned (show_nat n ++ s) ≡ some (some (word n), s)
unfolding convert
unsigned-show_nat reals n s h k =
    ap (word_of (ulong_bits 32)) (read_numeral-show_nat n s k)
    ∙ ap (λ (m : ℕ). some (some (word m), s)) (ulong_bits_small n h)

blanks-show_i32 :
    (reals : Str → Option (Str × Str)) (w : ℕ) (s : Str)
    → convert reals blanks (9 ∷ (show_i32 w ++ s)) ≡ some (none, show_i32 w ++ s)
unfolding show_i32
blanks-show_i32 reals w s = elim (Bool-cases (ltb w (2 ^ 31))) [
  | inl e ↦ rw e (blanks-show_nat reals w s)
  | inr e ↦ rw e (unfold convert skip_blanks in refl)
]

signed-show_i32 :
    (reals : Str → Option (Str × Str)) (w : ℕ) (s : Str)
    → w < 2 ^ 32
    → EndsNumber s
    → convert reals signed (show_i32 w ++ s) ≡ some (some (word w), s)
unfolding convert show_i32
signed-show_i32 reals w s h k = elim (Bool-cases (ltb w (2 ^ 31))) [
  | inl e ↦ rw e (
      ap (word_of (long_bits 32)) (read_numeral-show_nat w s k)
      ∙ ap (λ (m : ℕ). some (some (word m), s)) (long_bits_small w (ltb→lt w (2 ^ 31) e)))
  | inr e ↦ rw e (
      ap (word_of (long_bits 32)) (read_numeral-minus (2 ^ 32 - w) s k)
      ∙ ap (λ (m : ℕ). some (some (word m), s)) (long_bits_minus w h (ground arith)))
]

module _ (reals : Str → Option (Str × Str)) (ds : List Directive) where
  -- "\t%u"
  pub scan_with-unsigned :
      (n : ℕ) (s : Str)
      → n < 2 ^ 32
      → EndsNumber s
      → scan_with reals (blanks ∷ unsigned ∷ ds) (9 ∷ (show_nat n ++ s))
        ≡ word n ∷ scan_with reals ds s
  scan_with-unsigned n s h k =
      scan_with-skipped reals blanks (unsigned ∷ ds) (9 ∷ (show_nat n ++ s)) (show_nat n ++ s)
        (blanks-show_nat reals n s)
      ∙ scan_with-stored reals unsigned ds (show_nat n ++ s) s (word n)
          (unsigned-show_nat reals n s h k)

  -- "\t%d"
  pub scan_with-signed :
      (w : ℕ) (s : Str)
      → w < 2 ^ 32
      → EndsNumber s
      → scan_with reals (blanks ∷ signed ∷ ds) (9 ∷ (show_i32 w ++ s))
        ≡ word w ∷ scan_with reals ds s
  scan_with-signed w s h k =
      scan_with-skipped reals blanks (signed ∷ ds) (9 ∷ (show_i32 w ++ s)) (show_i32 w ++ s)
        (blanks-show_i32 reals w s)
      ∙ scan_with-stored reals signed ds (show_i32 w ++ s) s (word w)
          (signed-show_i32 reals w s h k)

read_until-stop :
    (width stop : ℕ) (t s : Str)
    → All (λ c. c ≢ stop) t
    → length t ≤ width
    → read_until width stop (t ++ (stop ∷ s)) ≡ (t, stop ∷ s)
unfolding read_until
read_until-stop zero stop [] s h k = refl
read_until-stop zero stop (c ∷ t) s h k = absurd (omega arith)
read_until-stop (suc width) stop [] s h k = ground arith
read_until-stop (suc width) stop (c ∷ t) s h k =
    let other : (c == stop) ≡ false = ground (arith, h.0) in
    rw (other, read_until-stop width stop t s h.1 (omega arith))

-- A column that is read back whole: it does not begin with white space, nor is it empty; it does
-- not hold the byte at which the conversion stops, and is no longer than its width.
pub record IsColumn (width stop : ℕ) (s : Str) : Type 0 where
  pub solid : is_blank (get_or s 0 b' ') ≡ false
  pub no_stop : All (λ d. d ≢ stop) s
  pub short : length s ≤ width

module _ (reals : Str → Option (Str × Str)) (ds : List Directive) (width stop : ℕ) where
  -- "%<width>[^<stop>]"
  pub scan_with-until :
      (t s : Str)
      → IsColumn width stop t
      → scan_with reals (until width stop ∷ ds) (t ++ (stop ∷ s))
        ≡ text t ∷ scan_with reals ds (stop ∷ s)
  unfolding convert
  scan_with-until [] s column = cc (column.solid)
  scan_with-until (c ∷ t) s column =
      scan_with-stored reals (until width stop) ds ((c ∷ t) ++ (stop ∷ s)) (stop ∷ s) (text (c ∷ t))
        (ap text_of (read_until-stop width stop (c ∷ t) s column.no_stop column.short))

  -- The same behind a tab.
  pub scan_with-blank_until :
      (t s : Str)
      → IsColumn width stop t
      → scan_with reals (blanks ∷ until width stop ∷ ds) (9 ∷ (t ++ (stop ∷ s)))
        ≡ text t ∷ scan_with reals ds (stop ∷ s)
  unfolding convert skip_blanks
  scan_with-blank_until [] s column = cc (column.solid)
  scan_with-blank_until (c ∷ t) s column =
      scan_with-skipped reals blanks (until width stop ∷ ds) (9 ∷ ((c ∷ t) ++ (stop ∷ s)))
        ((c ∷ t) ++ (stop ∷ s)) (rw column.solid)
      ∙ scan_with-until (c ∷ t) s column

-- The same as rules: from what the rest of a line gives, what the line gives.
module _ (reals : Str → Option (Str × Str)) (ds : List Directive) (s : Str)
    {vs : List Scanned} where
  pub then-unsigned :
      (n : ℕ)
      → n < 2 ^ 32
      → EndsNumber s
      → scan_with reals ds s ≡ vs
      → scan_with reals (blanks ∷ unsigned ∷ ds) (9 ∷ (show_nat n ++ s)) ≡ word n ∷ vs
  then-unsigned n h k rest = scan_with-unsigned reals ds n s h k ∙ ap (◌∷◌ (word n)) rest

  pub then-signed :
      (w : ℕ)
      → w < 2 ^ 32
      → EndsNumber s
      → scan_with reals ds s ≡ vs
      → scan_with reals (blanks ∷ signed ∷ ds) (9 ∷ (show_i32 w ++ s)) ≡ word w ∷ vs
  then-signed w h k rest = scan_with-signed reals ds w s h k ∙ ap (◌∷◌ (word w)) rest

  pub then-until :
      (width stop : ℕ) (t : Str)
      → IsColumn width stop t
      → scan_with reals ds (stop ∷ s) ≡ vs
      → scan_with reals (until width stop ∷ ds) (t ++ (stop ∷ s)) ≡ text t ∷ vs
  then-until width stop t column rest =
      scan_with-until reals ds width stop t s column ∙ ap (◌∷◌ (text t)) rest

  pub then-blank_until :
      (width stop : ℕ) (t : Str)
      → IsColumn width stop t
      → scan_with reals ds (stop ∷ s) ≡ vs
      → scan_with reals (blanks ∷ until width stop ∷ ds) (9 ∷ (t ++ (stop ∷ s))) ≡ text t ∷ vs
  then-blank_until width stop t column rest =
      scan_with-blank_until reals ds width stop t s column ∙ ap (◌∷◌ (text t)) rest

pub sscanf-eq-scan_with :
    (ds : List Directive) (s : Str) {vs : List Scanned}
    → scan_with no_reals ds s ≡ vs
    → sscanf ds s ≡ vs
unfolding sscanf
sscanf-eq-scan_with ds s h = h

pub scan_with-nil : (reals : Str → Option (Str × Str)) (s : Str) → scan_with reals [] s ≡ []
unfolding scan_with
scan_with-nil reals s = refl
