-- ===== src/Node/Loading/Columns.antt =====
-- The columns that hold hex text in the contact file of sdr-node/src/node.cpp: the key, and the
-- paths with the dash that stands for an empty one.
use meshcore_open_sdr.Shared.{
  [], ap, arith, false, inl, inr, refl, some, suc, true, ℕ, ◌%◌, ◌++◌, ◌<◌, ◌∷◌, ◌≡◌, ◌≢◌, ◌≤◌,
}
use meshcore_open_sdr.Config.Channels.{all_hex, is_hex_digit}
use meshcore_open_sdr.Library.{HexDigits, Library}
use meshcore_open_sdr.Node.Files.{path_text}
use meshcore_open_sdr.Node.Loading.{is_hex_str, read_path}
use meshcore_open_sdr.Shared.Lists.{All, get_or, length}
use meshcore_open_sdr.Shared.Scan.{is_blank}
use meshcore_open_sdr.Shared.Scan.Fields.{IsColumn}
use meshcore_open_sdr.Shared.Scan.Lines.{IsLineByte}
use meshcore_open_sdr.Shared.Tests.{Bool-cases, if◌then◌else◌, ◌==◌}
use meshcore_open_sdr.Shared.Text.{Bytes, Str, is_empty, lower, to_lower}
use meshcore_open_sdr.Wire.{IsByte}

hex-byte : (c stop : ℕ) → is_hex_digit c ≡ true → stop < b'0' → c ≢ stop
hex-byte c stop h k e = ground arith

all_hex-no_stop : (s : Str) (stop : ℕ) → all_hex s ≡ true → stop < b'0' → All (λ c. c ≢ stop) s
unfolding all_hex
all_hex-no_stop [] stop h k = tt
all_hex-no_stop (c ∷ s) stop h k = elim (Bool-cases (is_hex_digit c)) [
  | inl e ↦ (hex-byte c stop e k, all_hex-no_stop s stop (rw e at h) k)
  | inr e ↦ cc (e, h)
]

pub all_hex-IsLineByte : (s : Str) → all_hex s ≡ true → All IsLineByte s
unfolding all_hex
all_hex-IsLineByte [] h = tt
all_hex-IsLineByte (c ∷ s) h = elim (Bool-cases (is_hex_digit c)) [
  | inl e ↦ (
    (hex-byte c 0 e (omega arith), hex-byte c 10 e (omega arith)),
    all_hex-IsLineByte s (rw e at h),
  )
  | inr e ↦ cc (e, h)
]

hex-solid : (c : ℕ) → is_hex_digit c ≡ true → is_blank c ≡ false
hex-solid c h = ground arith

all_hex-solid : (s : Str) → all_hex s ≡ true → 0 < length s → is_blank (get_or s 0 b' ') ≡ false
unfolding all_hex
all_hex-solid [] h k = absurd (omega arith)
all_hex-solid (c ∷ s) h k = elim (Bool-cases (is_hex_digit c)) [
  | inl e ↦ hex-solid c e
  | inr e ↦ cc (e, h)
]

-- Hex text that fits is a column.
pub all_hex-IsColumn :
    (width : ℕ) (s : Str) → all_hex s ≡ true → 0 < length s → length s ≤ width → IsColumn width 9 s
all_hex-IsColumn width s h k fits = record {
  solid = all_hex-solid s h k;
  no_stop = all_hex-no_stop s 9 h (omega arith);
  short = fits;
}

hex-no_comment : (c : ℕ) → is_hex_digit c ≡ true → (c == b'#') ≡ false
hex-no_comment c h = ground arith

-- A line that begins with hex text is no comment.
pub all_hex-no_comment :
    (s rest : Str) → all_hex s ≡ true → 0 < length s → (get_or (s ++ rest) 0 0 == b'#') ≡ false
unfolding all_hex
all_hex-no_comment [] rest h k = absurd (omega arith)
all_hex-no_comment (c ∷ s) rest h k = elim (Bool-cases (is_hex_digit c)) [
  | inl e ↦ hex-no_comment c e
  | inr e ↦ cc (e, h)
]

lower-hex : (c : ℕ) → is_hex_digit c ≡ true → is_hex_digit (lower c) ≡ true
lower-hex c h = ground arith

pub to_lower-all_hex : (s : Str) → all_hex s ≡ true → all_hex (to_lower s) ≡ true
unfolding all_hex to_lower
to_lower-all_hex [] h = refl
to_lower-all_hex (c ∷ s) h = elim (Bool-cases (is_hex_digit c)) [
  | inl e ↦ rw (lower-hex c e) (to_lower-all_hex s (rw e at h))
  | inr e ↦ cc (e, h)
]

pub length-to_lower : (s : Str) → length (to_lower s) ≡ length s
unfolding to_lower
length-to_lower [] = refl
length-to_lower (c ∷ s) = ap suc (length-to_lower s)

lower_again : (c : ℕ) → lower (lower c) ≡ lower c
lower_again c = ground arith

pub to_lower_again : (s : Str) → to_lower (to_lower s) ≡ to_lower s
unfolding to_lower
to_lower_again [] = refl
to_lower_again (c ∷ s) = rw (lower_again c, to_lower_again s)

-- A path that a packet can carry, with the length byte that goes with it.
pub record IsPathField (len : ℕ) (path : Bytes) : Type 0 where
  pub bytes : All IsByte path
  pub at_most_64 : length path ≤ 64
  pub len_byte : len < 256

module _ (lib : Library) (hex : HexDigits lib) where
  pub path_text-IsColumn :
      (len : ℕ) (path : Bytes) → IsPathField len path → IsColumn 139 9 (path_text lib path)
  unfolding path_text
  path_text-IsColumn len [] p = record {
    solid = refl;
    no_stop = ((λ e. omega (arith, e)), tt);
    short = omega arith;
  }
  path_text-IsColumn len (b ∷ bs) p =
      all_hex-IsColumn 139 (lib.bytes_to_hex (b ∷ bs)) (hex.digits (b ∷ bs) p.bytes)
        (omega (arith, hex.two_each (b ∷ bs))) (omega (arith, hex.two_each (b ∷ bs), p.at_most_64))

  pub path_text-IsLineByte :
      (len : ℕ) (path : Bytes) → IsPathField len path → All IsLineByte (path_text lib path)
  unfolding path_text
  path_text-IsLineByte len [] p = (((λ e. omega (arith, e)), (λ e. omega (arith, e))), tt)
  path_text-IsLineByte len (b ∷ bs) p =
      all_hex-IsLineByte (lib.bytes_to_hex (b ∷ bs)) (hex.digits (b ∷ bs) p.bytes)

  nonempty-is_hex_str : (s : Str) → all_hex s ≡ true → 0 < length s → is_hex_str s ≡ true
  unfolding is_hex_str
  nonempty-is_hex_str [] h k = absurd (omega arith)
  nonempty-is_hex_str (c ∷ s) h k = h

  -- A path is read as it was written, and the length of an empty one as "no path".
  pub read_path-path_text :
      (len : ℕ) (path : Bytes)
      → IsPathField len path
      → read_path lib len (path_text lib path) ≡ some (if is_empty path then 0xFF else len, path)
  unfolding path_text
  read_path-path_text len [] p = unfold is_hex_str in refl
  read_path-path_text len (b ∷ bs) p =
      let text = lib.bytes_to_hex (b ∷ bs) in
      let small : len % 256 ≡ len = omega (arith, p.len_byte) in
      rw (
        nonempty-is_hex_str text (hex.digits (b ∷ bs) p.bytes)
            (omega (arith, hex.two_each (b ∷ bs))),
        hex.reads (b ∷ bs) p.bytes,
        small,
      )

  pub length-path_text :
      (len : ℕ) (path : Bytes) → IsPathField len path → length (path_text lib path) ≤ 128
  unfolding path_text
  length-path_text len [] p = omega arith
  length-path_text len (b ∷ bs) p = omega (arith, hex.two_each (b ∷ bs), p.at_most_64)
