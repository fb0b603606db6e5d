-- ===== src/Wire/Words.antt =====
-- putU32 and getU32 are inverse, and the signed bytes stay bytes.
use meshcore_open_sdr.Shared.{[], arith, suc, ℕ, ◌%◌, ◌++◌, ◌+◌, ◌^◌, ◌∙◌, ◌∷◌, ◌≡◌}
use meshcore_open_sdr.Shared.Int.{negsuc, pos, ℤ}
use meshcore_open_sdr.Shared.Lists.{All, drop, get_or, get_or-drop, length}
use meshcore_open_sdr.Shared.Text.{Bytes}
use meshcore_open_sdr.Wire.{IsByte, IsU32, clamp_byte, get_u32, put_u32, u32}
use mathlib.Core.List.{append_assoc}

pub u32-IsByte : (x : ℕ) → All IsByte (u32 x)
u32-IsByte x = omega arith

pub get_or-append : (v w : Bytes) (k : ℕ) → get_or (v ++ w) (length v + k) 0 ≡ get_or w k 0
get_or-append [] w k = let e : 0 + k ≡ k = omega arith in rw e
get_or-append (x ∷ v) w k =
    let e : suc (length v) + k ≡ suc (length v + k) = omega arith in rw e (get_or-append v w k)

pub get_u32-append : (v w : Bytes) → get_u32 (v ++ w) (length v) ≡ get_u32 w 0
unfolding get_u32
get_u32-append v w =
    ground
      (arith, get_or-append v w 0, get_or-append v w 1, get_or-append v w 2, get_or-append v w 3)

pub get_u32-u32 : (x : ℕ) (rest : Bytes) → get_u32 (u32 x ++ rest) 0 ≡ x % 2 ^ 32
unfolding get_u32
get_u32-u32 x rest = omega arith

-- Behind any bytes and before any others, getU32 reads back what putU32 wrote, modulo 2 ^ 32.
pub get_u32-put_u32 :
    (v rest : Bytes) (x : ℕ) → get_u32 (put_u32 v x ++ rest) (length v) ≡ x % 2 ^ 32
unfolding put_u32
get_u32-put_u32 v rest x = rw append_assoc (get_u32-append v (u32 x ++ rest) ∙ get_u32-u32 x rest)

-- Four bytes are the word that getU32 reads from them.
pub u32-get_u32 :
    (a b c d : ℕ) (rest : Bytes)
    → IsByte a
    → IsByte b
    → IsByte c
    → IsByte d
    → (u32 (get_u32 (a ∷ b ∷ c ∷ d ∷ rest) 0) ≡ a ∷ b ∷ c ∷ d ∷ [])
      × IsU32 (get_u32 (a ∷ b ∷ c ∷ d ∷ rest) 0)
unfolding get_u32
u32-get_u32 a b c d rest ha hb hc hd = (ground arith, omega arith)

pub clamp_byte-IsByte : (v : ℤ) → IsByte (clamp_byte v)
unfolding clamp_byte
clamp_byte-IsByte (pos n) = omega arith
clamp_byte-IsByte (negsuc n) = omega arith

pub get_u32-drop : (i : ℕ) (f : Bytes) → get_u32 f i ≡ get_u32 (drop i f) 0
unfolding get_u32
get_u32-drop i f =
    ground
      (arith, get_or-drop i 0 f 0, get_or-drop i 1 f 0, get_or-drop i 2 f 0, get_or-drop i 3 f 0)
