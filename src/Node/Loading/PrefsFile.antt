-- ===== src/Node/Loading/PrefsFile.antt =====
-- savePrefs and loadPrefs of sdr-node/src/node.cpp against each other.
use meshcore_open_sdr.Shared.{
  List, [], ap, arith, false, inl, inr, not, refl, some, sym, true, ℕ, ◌%◌, ◌&&◌, ◌++◌, ◌+◌, ◌<◌,
  ◌^◌, ◌∙◌, ◌∷◌, ◌≡◌, ◌≢◌, ◌≤◌, ◌⊎◌,
}
use meshcore_open_sdr.Config.Channels.{all_hex}
use meshcore_open_sdr.Library.{HexDigits, Library}
use meshcore_open_sdr.Node.Files.{prefs_text, scope_lines}
use meshcore_open_sdr.Node.Loading.{
  Prefs, drop_first_spaces, drop_last_spaces, load_pref, load_pref_lines, load_prefs, pref_format,
  set_pref,
}
use meshcore_open_sdr.Node.Loading.Columns.{all_hex-IsColumn, all_hex-IsLineByte}
use meshcore_open_sdr.Node.State.{Node}
use meshcore_open_sdr.Shared.Decimal.{show_nat}
use meshcore_open_sdr.Shared.Lists.{All, get_or, length, length-append}
use meshcore_open_sdr.Shared.Scan.{
  ato_bits, bits_or_zero, byte, convert, fgets_all, is_blank, no_reals, read_numeral, scan_with,
  sscanf, text, until,
}
use meshcore_open_sdr.Shared.Scan.Fields.{
  IsColumn, long_bits_byte, scan_with-nil, scan_with-skipped, sscanf-eq-scan_with, then-until,
}
use meshcore_open_sdr.Shared.Scan.Lines.{
  All-IsLineByte-append, All-until_nul, IsLineByte, fgets_all-line, show_nat-IsLineByte,
}
use meshcore_open_sdr.Shared.Scan.Numbers.{
  length-show_nat, read_numeral-show_nat, show_nat-StartsDigit,
}
use meshcore_open_sdr.Shared.Tests.{◌==◌}
use meshcore_open_sdr.Shared.Text.{Bytes, Str, codes, is_empty, str_eq, until_nul}
use meshcore_open_sdr.Wire.{IsByte}
use mathlib.Core.List.{append-nil, append_assoc}

-- The settings that the node keeps: a byte for the path hash mode, and either no flood scope, or a
-- name that does not begin with white space and holds no NUL and no newline, with a key of 16 bytes.
pub record IsScope (name : Str) (key : Bytes) : Type 0 where
  pub name_solid : is_blank (get_or name 0 b' ') ≡ false
  pub name_line : All IsLineByte name
  pub name_short : length name ≤ 159
  pub key_bytes : All IsByte key
  pub key_length : length key ≡ 16

pub record HasPrefs (n : Node) : Type 0 where
  pub mode_byte : n.path_hash_mode < 256
  pub scope : ((n.scope_name ≡ []) × (n.scope_key ≡ [])) ⊎ IsScope n.scope_name n.scope_key

abbrev pub prefs_of : Node → Prefs
prefs_of n = record {
  path_hash_mode = n.path_hash_mode;
  scope_name = n.scope_name;
  scope_key = n.scope_key;
}

no_newline : (s : Str) → All IsLineByte s → All (λ c. c ≢ 10) s
no_newline [] h = tt
no_newline (c ∷ s) h = (h.0.1, no_newline s h.1)

-- A value that is read back whole.
value-IsColumn :
    (v : Str)
    → is_blank (get_or v 0 b' ') ≡ false
    → All IsLineByte v
    → length v ≤ 159
    → IsColumn 159 10 v
value-IsColumn v h k short = record { solid = h; no_stop = no_newline v k; short = short }

show_nat-IsColumn : (n : ℕ) → n < 256 → IsColumn 159 10 (show_nat n)
show_nat-IsColumn n h =
    let (d, r, lt, e) = show_nat-StartsDigit n in
    let digit : is_blank (b'0' + d) ≡ false = ground arith in
    value-IsColumn (show_nat n) (rw e digit) (show_nat-IsLineByte n)
      (omega (arith, length-show_nat n 2 (omega arith)))

hex-IsColumn : (s : Str) → all_hex s ≡ true → length s ≡ 32 → IsColumn 159 10 s
hex-IsColumn s h k =
    let column = all_hex-IsColumn 159 s h (omega arith) (omega arith) in
    value-IsColumn s column.solid (all_hex-IsLineByte s h) (omega arith)

-- The value of a line is what stands behind the sign.
sscanf-value :
    (v : Str)
    → IsColumn 159 10 v
    → scan_with no_reals (byte 61 ∷ until 159 10 ∷ []) (61 ∷ (v ++ (10 ∷ []))) ≡ text v ∷ []
unfolding convert
sscanf-value v column =
    scan_with-skipped no_reals (byte 61) (until 159 10 ∷ []) (61 ∷ (v ++ (10 ∷ [])))
      (v ++ (10 ∷ [])) refl
    ∙ then-until no_reals [] [] 159 10 v column (scan_with-nil _ _)

drop_first_spaces-solid : (v : Str) → is_blank (get_or v 0 b' ') ≡ false → drop_first_spaces v ≡ v
unfolding drop_first_spaces
drop_first_spaces-solid [] h = refl
drop_first_spaces-solid (c ∷ v) h = let e : (c == b' ') ≡ false = ground arith in rw e

module _ (lib : Library) (p : Prefs) (v : Str) (column : IsColumn 159 10 v) where
  load_pref-line :
      (k : Str)
      → (get_or k 0 0 == b'#') ≡ false
      → IsColumn 63 61 k
      → load_pref lib (k ++ (61 ∷ (v ++ (10 ∷ [])))) p ≡ set_pref lib (drop_last_spaces k) v p
  unfolding load_pref
  load_pref-line [] h key = cc (key.solid)
  load_pref-line (c ∷ k) h key =
      let read : sscanf pref_format ((c ∷ k) ++ (61 ∷ (v ++ (10 ∷ []))))
          ≡ text (c ∷ k) ∷ text v ∷ [] =
        sscanf-eq-scan_with _ _
          (then-until no_reals _ _ 63 61 (c ∷ k) key (sscanf-value v column)) in
      rw (h, read, drop_first_spaces-solid v column.solid)

pref_line :
    (k v rest : Str)
    → All IsLineByte k
    → All IsLineByte v
    → length k + length v ≤ 250
    → fgets_all 256 (k ++ (61 ∷ (v ++ (10 ∷ rest))))
      ≡ (k ++ (61 ∷ (v ++ (10 ∷ [])))) ∷ fgets_all 256 rest
pref_line k v rest h h' fits =
    let line : All IsLineByte (k ++ (61 ∷ v)) =
      All-IsLineByte-append k (61 ∷ v) h (((λ e. omega (arith, e)), (λ e. omega (arith, e))), h') in
    ap (fgets_all 256) (sym (append_assoc k (61 ∷ v) (10 ∷ rest)))
    ∙ fgets_all-line 256 (k ++ (61 ∷ v)) rest line (omega (arith, length-append k (61 ∷ v)))
    ∙ ap (λ (s : Str). s ∷ fgets_all 256 rest) (append_assoc k (61 ∷ v) (10 ∷ []))

comment : Str
comment = codes "# written by meshcore-sdr-node; settings the app can change"

solid-is_empty : (s : Str) → is_blank (get_or s 0 b' ') ≡ false → is_empty s ≡ false
solid-is_empty [] h = cc
solid-is_empty (c ∷ s) h = refl

module _ (lib : Library) where
  load_pref-comment : (p : Prefs) → load_pref lib (comment ++ (10 ∷ [])) p ≡ p
  unfolding load_pref comment
  load_pref-comment p = refl

  comment_line :
      (rest : Str)
      → fgets_all 256 (comment ++ (10 ∷ rest)) ≡ (comment ++ (10 ∷ [])) ∷ fgets_all 256 rest
  unfolding fgets_all comment
  comment_line rest = refl

  load_pref_lines-comment :
      (p : Prefs) (ls : List Str)
      → load_pref_lines lib ((comment ++ (10 ∷ [])) ∷ ls) p ≡ load_pref_lines lib ls p
  unfolding load_pref_lines
  load_pref_lines-comment p ls = ap (load_pref_lines lib ls) (load_pref-comment p)

  no_lines : (p : Prefs) → load_pref_lines lib (fgets_all 256 []) p ≡ p
  unfolding load_pref_lines fgets_all
  no_lines p = refl

  ato_bits-show_nat : (n : ℕ) → n < 256 → ato_bits 8 (show_nat n) ≡ n
  unfolding ato_bits
  ato_bits-show_nat n h =
      let text : until_nul (show_nat n) ≡ show_nat n ++ [] =
        All-until_nul (show_nat n) (show_nat-IsLineByte n) ∙ sym (append-nil (show_nat n)) in
      ap (λ (t : Str). bits_or_zero 8 (read_numeral t)) text
      ∙ ap (bits_or_zero 8) (read_numeral-show_nat n [] tt)
      ∙ long_bits_byte n h

  set_pref-mode :
      (n : ℕ) (p : Prefs)
      → n < 256
      → set_pref lib (codes "path_hash_mode") (show_nat n) p ≡ record p { path_hash_mode = n }
  unfolding set_pref str_eq
  set_pref-mode n p h = rw (ato_bits-show_nat n h)

  set_pref-name :
      (v : Str) (p : Prefs) → set_pref lib (codes "scope_name") v p ≡ record p { scope_name = v }
  unfolding set_pref str_eq
  set_pref-name v p = refl

  set_pref-key :
      (hex : HexDigits lib) (key : Bytes) (p : Prefs)
      → All IsByte key
      → length key ≡ 16
      → set_pref lib (codes "scope_key") (lib.bytes_to_hex key) p ≡ record p { scope_key = key }
  unfolding set_pref str_eq
  set_pref-key hex key p h k =
      let full : (length (lib.bytes_to_hex key) == 32) ≡ true = ground (arith, hex.two_each key) in
      rw (full, hex.reads key h)

  -- A line that the node wrote, read.
  load_pref_lines-line :
      (k v rest : Str) (p : Prefs)
      → All IsLineByte k
      → (get_or k 0 0 == b'#') ≡ false
      → IsColumn 63 61 k
      → drop_last_spaces k ≡ k
      → All IsLineByte v
      → IsColumn 159 10 v
      → length k + length v ≤ 250
      → load_pref_lines lib (fgets_all 256 (k ++ (61 ∷ (v ++ (10 ∷ rest))))) p
        ≡ load_pref_lines lib (fgets_all 256 rest) (set_pref lib k v p)
  unfolding load_pref_lines
  load_pref_lines-line k v rest p h no_sign key same h' value fits =
      ap (λ (ls : List Str). load_pref_lines lib ls p) (pref_line k v rest h h' fits)
      ∙ ap (load_pref_lines lib (fgets_all 256 rest))
          (load_pref-line lib p v value k no_sign key ∙ ap (λ (k' : Str). set_pref lib k' v p) same)

  module _ (hex : HexDigits lib) (n : Node) (h : HasPrefs n) where
    mode_line :
        (p : Prefs) (rest : Str)
        → load_pref_lines lib
            (fgets_all 256 (codes "path_hash_mode=" ++ (show_nat n.path_hash_mode ++ (10 ∷ rest))))
            p
          ≡ load_pref_lines lib
              (fgets_all 256 rest)
              (record p { path_hash_mode = n.path_hash_mode })
    mode_line p rest =
        load_pref_lines-line (codes "path_hash_mode") (show_nat n.path_hash_mode) rest p
          (omega arith) refl (record { solid = refl; no_stop = omega arith; short = omega arith })
          (unfold drop_last_spaces in refl) (show_nat-IsLineByte n.path_hash_mode)
          (show_nat-IsColumn n.path_hash_mode h.mode_byte)
          (omega (arith, length-show_nat n.path_hash_mode 2 (omega (arith, h.mode_byte))))
        ∙ ap (load_pref_lines lib (fgets_all 256 rest))
            (set_pref-mode n.path_hash_mode p h.mode_byte)

    has_scope :
        IsScope n.scope_name n.scope_key
        → (not (is_empty n.scope_name) && length n.scope_key == 16) ≡ true
    has_scope s =
        let k : (length n.scope_key == 16) ≡ true = ground (arith, s.key_length) in
        rw (solid-is_empty n.scope_name s.name_solid, k)

    name_line :
        (p : Prefs) (rest : Str)
        → IsScope n.scope_name n.scope_key
        → load_pref_lines lib
            (fgets_all 256 (codes "scope_name=" ++ (n.scope_name ++ (10 ∷ rest))))
            p
          ≡ load_pref_lines lib (fgets_all 256 rest) (record p { scope_name = n.scope_name })
    name_line p rest s =
        load_pref_lines-line (codes "scope_name") n.scope_name rest p (omega arith) refl
          (record { solid = refl; no_stop = omega arith; short = omega arith })
          (unfold drop_last_spaces in refl) s.name_line
          (value-IsColumn n.scope_name s.name_solid s.name_line s.name_short)
          (omega (arith, s.name_short))
        ∙ ap (load_pref_lines lib (fgets_all 256 rest)) (set_pref-name n.scope_name p)

    key_line :
        (p : Prefs)
        → IsScope n.scope_name n.scope_key
        → load_pref_lines lib
            (fgets_all 256 (codes "scope_key=" ++ (lib.bytes_to_hex n.scope_key ++ (10 ∷ []))))
            p
          ≡ record p { scope_key = n.scope_key }
    key_line p s =
        let text = lib.bytes_to_hex n.scope_key in
        let digits = hex.digits n.scope_key s.key_bytes in
        let full : length text ≡ 32 = omega (arith, hex.two_each n.scope_key, s.key_length) in
        load_pref_lines-line (codes "scope_key") text [] p (omega arith) refl
          (record { solid = refl; no_stop = omega arith; short = omega arith })
          (unfold drop_last_spaces in refl) (all_hex-IsLineByte text digits)
          (hex-IsColumn text digits full) (omega arith)
        ∙ no_lines _
        ∙ set_pref-key hex n.scope_key p s.key_bytes s.key_length

    scope_written :
        (p : Prefs)
        → IsScope n.scope_name n.scope_key
        → load_pref_lines lib (fgets_all 256 (scope_lines lib n)) p
          ≡ record p { scope_name = n.scope_name; scope_key = n.scope_key }
    unfolding scope_lines
    scope_written p s =
        rw (has_scope s, All-until_nul n.scope_name s.name_line)
          (name_line p _ s ∙ key_line (record p { scope_name = n.scope_name }) s)

    -- With a scope, its two lines follow; without one there are none.
    scope_loaded :
        (p : Prefs)
        → p.scope_name ≡ []
        → p.scope_key ≡ []
        → load_pref_lines lib (fgets_all 256 (scope_lines lib n)) p
          ≡ record p { scope_name = n.scope_name; scope_key = n.scope_key }
    unfolding scope_lines
    scope_loaded p no_name no_key = elim (h.scope) [
      | inl (name, key) ↦ rw (name, key) (no_lines p ∙ ground arith)
      | inr s ↦ scope_written p s
    ]

    -- The file that savePrefs writes gives back the path hash mode and the flood scope, whatever
    -- the configuration says.
    pub load_prefs-prefs_text :
        (mode : ℕ) → load_prefs lib mode (some (prefs_text lib n)) ≡ prefs_of n
    unfolding load_prefs prefs_text comment
    load_prefs-prefs_text mode =
        let p : Prefs = record { path_hash_mode = mode % 2 ^ 8; scope_name = []; scope_key = [] } in
        ap (λ (ls : List Str). load_pref_lines lib ls p) (comment_line _)
        ∙ load_pref_lines-comment p _
        ∙ mode_line p (scope_lines lib n)
        ∙ scope_loaded (record p { path_hash_mode = n.path_hash_mode }) refl refl
