-- ===== src/Shared/Scan/Lines.antt =====
-- The lines that fgets returns for a text that was written line by line.
use meshcore_open_sdr.Shared.{
  [], ap, arith, false, inl, inr, map, max, refl, suc, true, zero, ℕ, ◌%◌, ◌++◌, ◌+◌, ◌-◌, ◌/◌, ◌<◌,
  ◌^◌, ◌||◌, ◌∙◌, ◌∷◌, ◌≡◌, ◌≢◌, ◌≤◌,
}
use meshcore_open_sdr.Shared.Decimal.{show_i32, show_loop, show_nat}
use meshcore_open_sdr.Shared.Lists.{All, length}
use meshcore_open_sdr.Shared.Scan.{fgets_all, fgets_lines}
use meshcore_open_sdr.Shared.Tests.{Bool-cases, leb, ltb, ◌==◌}
use meshcore_open_sdr.Shared.Text.{Str, until_nul}

-- A byte that a line can hold: no NUL, which ends a C string, and no newline.
abbrev pub IsLineByte : ℕ → Type 0
IsLineByte c = (c ≢ 0) × (c ≢ 10)

pub All-IsLineByte-append :
    (s t : Str) → All IsLineByte s → All IsLineByte t → All IsLineByte (s ++ t)
All-IsLineByte-append [] t h k = k
All-IsLineByte-append (c ∷ s) t h k = (h.0, All-IsLineByte-append s t h.1 k)

digit-IsLineByte : (d : ℕ) → IsLineByte (b'0' + d)
digit-IsLineByte d = ((λ e. omega (arith, e)), (λ e. omega (arith, e)))

pub All-until_nul : (s : Str) → All IsLineByte s → until_nul s ≡ s
unfolding until_nul
All-until_nul [] h = refl
All-until_nul (c ∷ s) h =
    let e : (c == 0) ≡ false = ground (arith, h.0.0) in rw e (ap (◌∷◌ c) (All-until_nul s h.1))

until_nul-line : (s : Str) → All IsLineByte s → until_nul (s ++ (10 ∷ [])) ≡ s ++ (10 ∷ [])
unfolding until_nul
until_nul-line [] h = refl
until_nul-line (c ∷ s) h =
    let e : (c == 0) ≡ false = ground (arith, h.0.0) in rw e (ap (◌∷◌ c) (until_nul-line s h.1))

-- A line that fits into the buffer is one line, and the next begins behind its newline.
fgets_lines-line :
    (max room : ℕ) (s rest : Str)
    → All IsLineByte s
    → length s < room
    → fgets_lines max room (s ++ (10 ∷ rest)) ≡ (s ++ (10 ∷ [])) ∷ fgets_lines max max rest
unfolding fgets_lines
fgets_lines-line max room [] rest h k = refl
fgets_lines-line max room (c ∷ s) rest h k =
    let inside : (c == 10 || leb room 1) ≡ false = ground (arith, h.0.1) in
    rw (inside, fgets_lines-line max (room - 1) s rest h.1 (omega arith))

pub fgets_all-line :
    (size : ℕ) (s rest : Str)
    → All IsLineByte s
    → length s + 2 ≤ size
    → fgets_all size (s ++ (10 ∷ rest)) ≡ (s ++ (10 ∷ [])) ∷ fgets_all size rest
unfolding fgets_all
fgets_all-line size s rest h k =
    ap (map until_nul) (fgets_lines-line (size - 1) (size - 1) s rest h (omega arith))
    ∙ ap (λ (l : Str). l ∷ map until_nul (fgets_lines (size - 1) (size - 1) rest))
        (until_nul-line s h)

show_loop-IsLineByte :
    (fuel n : ℕ) (acc : Str) → All IsLineByte acc → All IsLineByte (show_loop fuel n acc)
unfolding show_loop
show_loop-IsLineByte zero n acc h = h
show_loop-IsLineByte (suc fuel) n acc h =
    elim (n / 10 == 0)
      as (λ b. All IsLineByte (elim b [
        | true ↦ (b'0' + n % 10) ∷ acc
        | false ↦ show_loop fuel (n / 10) ((b'0' + n % 10) ∷ acc)
      ])) [
        | true ↦ (digit-IsLineByte (n % 10), h)
        | false ↦
            show_loop-IsLineByte fuel (n / 10) ((b'0' + n % 10) ∷ acc)
              (digit-IsLineByte (n % 10), h)
      ]

pub show_nat-IsLineByte : (n : ℕ) → All IsLineByte (show_nat n)
unfolding show_nat
show_nat-IsLineByte n = show_loop-IsLineByte (suc n) n [] tt

pub show_i32-IsLineByte : (w : ℕ) → All IsLineByte (show_i32 w)
unfolding show_i32
show_i32-IsLineByte w = elim (Bool-cases (ltb w (2 ^ 31))) [
  | inl e ↦ rw e (show_nat-IsLineByte w)
  | inr e ↦
      rw e (((λ e. omega (arith, e)), (λ e. omega (arith, e))), show_nat-IsLineByte (2 ^ 32 - w))
]
