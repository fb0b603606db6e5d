-- ===== src/Node/Loading/Corrupt.antt =====
-- loadContactsFile of sdr-node/src/node.cpp on any file at all, damaged ones too.
use meshcore_open_sdr.Shared.{List, Option, [], arith, inl, inr, none, some, ℕ, ◌<◌, ◌∷◌, ◌≡◌}
use meshcore_open_sdr.Library.{Library}
use meshcore_open_sdr.Node.Loading.{
  Row, contact_of_row, contact_with, is_hex_str, load_contacts_file, load_row, load_rows, read_path,
  scan_row,
}
use meshcore_open_sdr.Node.State.{Contact}
use meshcore_open_sdr.Shared.Lists.{get_or, length}
use meshcore_open_sdr.Shared.Map.{
  IsSorted, Map, Values, insert, insert-IsSorted, insert-Values, nat_key, str_key,
}
use meshcore_open_sdr.Shared.Scan.{fgets_all}
use meshcore_open_sdr.Shared.Tests.{
  ==_iff, Bool-cases, Option-cases, Returns, Returns-bind, Returns-some, Returns-then, fails,
  if_elim, if◌then◌else◌, option_elim, returns, ◌==◌,
}
use meshcore_open_sdr.Shared.Text.{Bytes, Str}

-- What the loader promises of a contact: a key of 32 bytes, and fields that fit their bytes.
pub record IsLoaded (c : Contact) : Type 0 where
  pub key_length : length c.pub_key ≡ 32
  pub type_byte : c.type < 256
  pub out_byte : c.out_path_len < 256
  pub adv_byte : c.adv_path_len < 256

module _ (lib : Library) where
  read_path-byte : (len : ℕ) (s : Str) → Returns (λ r. r.0 < 256) (read_path lib len s)
  read_path-byte len s =
      if_elim (Returns (λ r. r.0 < 256)) (is_hex_str s)
        (option_elim (Returns (λ r. r.0 < 256)) (lib.hex_to_bytes s) fails
          (λ path. returns (omega arith)))
        (returns (omega arith))

  contact_with-IsLoaded :
      (r : Row) (key : Bytes) → length key ≡ 32 → Returns IsLoaded (contact_with lib r key)
  contact_with-IsLoaded r key h =
      Returns-then (read_path lib r.out_path_len r.out_path)
        (read_path-byte r.out_path_len r.out_path)
        (λ out out_byte.
          Returns-then (read_path lib r.adv_path_len r.adv_path)
            (read_path-byte r.adv_path_len r.adv_path)
            (λ adv adv_byte. returns (record {
              key_length = h;
              type_byte = omega arith;
              out_byte = out_byte;
              adv_byte = adv_byte;
            })))

  keyed-IsLoaded :
      (r : Row) (key : Bytes)
      → Returns IsLoaded (if length key == 32 then contact_with lib r key else none)
  keyed-IsLoaded r key = elim (Bool-cases (length key == 32)) [
    | inl e ↦ rw e (contact_with-IsLoaded r key ((==_iff (length key) 32).0 e))
    | inr e ↦ rw e fails
  ]

  contact_of_row-IsLoaded : (r : Row) → Returns IsLoaded (contact_of_row lib r)
  unfolding contact_of_row
  contact_of_row-IsLoaded r = Returns-bind (lib.hex_to_bytes r.key) (keyed-IsLoaded r)

  load_row-IsLoaded : (l : Str) → Returns (λ e. IsLoaded e.1) (load_row lib l)
  unfolding load_row
  load_row-IsLoaded l = if_elim (Returns (λ e. IsLoaded e.1)) (get_or l 0 0 == b'#') fails (
      Returns-bind (scan_row l)
        (λ r. Returns-then (contact_of_row lib r) (contact_of_row-IsLoaded r) (λ c h. returns h)))

  load_rows-IsSorted :
      (ls : List Str) (m : Map Str Contact)
      → IsSorted m
      → Values IsLoaded m
      → IsSorted (load_rows lib ls m) × Values IsLoaded (load_rows lib ls m)
  unfolding load_rows
  load_rows-IsSorted [] m s h = (s, h)
  load_rows-IsSorted (l ∷ ls) m s h = elim (Option-cases (load_row lib l)) [
    | inl e ↦ rw e (load_rows-IsSorted ls m s h)
    | inr ((key, c), e) ↦
        let good : IsLoaded c = Returns-some (rw e at (load_row-IsLoaded l)) in
        rw e (
          load_rows-IsSorted ls (insert key c m) (insert-IsSorted key c m s)
            (insert-Values IsLoaded key c m good h))
  ]

  -- Whatever the file holds, what is loaded is a list of well-formed contacts with one for each key.
  pub load_contacts_file-IsLoaded :
      (file : Option Str)
      → IsSorted (load_contacts_file lib file) × Values IsLoaded (load_contacts_file lib file)
  unfolding load_contacts_file
  load_contacts_file-IsLoaded none = (tt, tt)
  load_contacts_file-IsLoaded (some s) = load_rows-IsSorted (fgets_all 512 s) [] tt tt
