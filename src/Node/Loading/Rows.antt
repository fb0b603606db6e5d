-- ===== src/Node/Loading/Rows.antt =====
-- persistContacts and loadContactsFile of sdr-node/src/node.cpp against each other.
use meshcore_open_sdr.Shared.{
  List, [], ap, arith, false, refl, some, sym, true, ◌%◌, ◌++◌, ◌<◌, ◌∙◌, ◌∷◌, ◌≡◌, ◌≢◌, ◌≤◌,
}
use meshcore_open_sdr.Config.Channels.{all_hex}
use meshcore_open_sdr.Library.{HexDigits, HexInverts, Library}
use meshcore_open_sdr.Node.Files.{contact_row, path_text, tab_separated}
use meshcore_open_sdr.Node.Loading.{
  contact_of_row, full_format, load_row, path_columns, row_start, scan_row,
}
use meshcore_open_sdr.Node.Loading.Columns.{
  IsPathField, all_hex-IsColumn, all_hex-no_comment, length-to_lower, path_text-IsColumn,
  read_path-path_text, to_lower-all_hex, to_lower_again,
}
use meshcore_open_sdr.Node.State.{Contact}
use meshcore_open_sdr.Shared.Decimal.{show_i32, show_nat}
use meshcore_open_sdr.Shared.Lists.{All, get_or, length}
use meshcore_open_sdr.Shared.Scan.{
  Directive, Scanned, is_blank, no_reals, scan_with, sscanf, text, word,
}
use meshcore_open_sdr.Shared.Scan.Fields.{
  IsColumn, scan_with-nil, sscanf-eq-scan_with, then-blank_until, then-signed, then-unsigned,
  then-until,
}
use meshcore_open_sdr.Shared.Scan.Lines.{All-until_nul, IsLineByte}
use meshcore_open_sdr.Shared.Tests.{if◌then◌else◌, ◌==◌}
use meshcore_open_sdr.Shared.Text.{Str, is_empty, to_lower}
use meshcore_open_sdr.Wire.{IsByte, IsU32}

-- What the node itself puts into a row: the key in its hex form, and values that fit their fields.
pub record IsRow (lib : Library) (key : Str) (c : Contact) : Type 0 where
  pub key_is : key ≡ to_lower (lib.bytes_to_hex c.pub_key)
  pub key_bytes : All IsByte c.pub_key
  pub key_length : length c.pub_key ≡ 32
  pub type_byte : c.type < 256
  pub last_advert_u32 : IsU32 c.last_advert
  pub last_mod_u32 : IsU32 c.last_mod
  pub lat_u32 : IsU32 c.lat
  pub lon_u32 : IsU32 c.lon
  pub out : IsPathField c.out_path_len c.out_path
  pub adv : IsPathField c.adv_path_len c.adv_path
  pub adv_recv_time_u32 : IsU32 c.adv_recv_time

-- Names are the one thing in a row that the node does not choose. One that is read back is not
-- empty, does not begin with white space, holds no NUL and no newline, and has at most 63 bytes.
pub record IsName (name : Str) : Type 0 where
  pub solid : is_blank (get_or name 0 b' ') ≡ false
  pub line : All IsLineByte name
  pub short : length name ≤ 63

pub record IsStorable (lib : Library) (key : Str) (c : Contact) : Type 0 where
  pub row : IsRow lib key c
  pub name : IsName c.name

-- What is left of a contact: the secret is not written, and the length of an empty path is "none".
abbrev pub as_stored : Contact → Contact
as_stored c = record c {
  secret_hex = [];
  out_path_len = if is_empty c.out_path then 0xFF else c.out_path_len;
  adv_path_len = if is_empty c.adv_path then 0xFF else c.adv_path_len;
}

-- The first eight columns of a row, in front of a tab and the rest.
abbrev pub row_front : Library → Str → Contact → Str → Str
row_front lib key c rest =
    key
    ++ (9
        ∷ (show_nat c.type
            ++ (9
                ∷ (show_nat c.last_advert
                    ++ (9
                        ∷ (show_nat c.last_mod
                            ++ (9
                                ∷ (show_i32 c.lat
                                    ++ (9
                                        ∷ (show_i32 c.lon
                                            ++ (9
                                                ∷ (show_nat c.out_path_len
                                                    ++ (9
                                                        ∷ (path_text lib c.out_path
                                                            ++ (9 ∷ rest)))))))))))))))

-- What sscanf stores for them, in front of the rest.
abbrev pub front_values : Library → Str → Contact → List Scanned → List Scanned
front_values lib key c vs =
    text key
    ∷ word c.type
    ∷ word c.last_advert
    ∷ word c.last_mod
    ∷ word c.lat
    ∷ word c.lon
    ∷ word c.out_path_len
    ∷ text (path_text lib c.out_path)
    ∷ vs

name_no_newline : (s : Str) → All IsLineByte s → All (λ c. c ≢ 10) s
name_no_newline [] h = tt
name_no_newline (c ∷ s) h = (h.0.1, name_no_newline s h.1)

module _ (lib : Library) (inverts : HexInverts lib) (hex : HexDigits lib) (key : Str) (c : Contact)
    (r : IsRow lib key c) where
  pub length-key : length key ≡ 64
  length-key = rw (r.key_is) (
      omega
        (arith, length-to_lower (lib.bytes_to_hex c.pub_key), hex.two_each c.pub_key, r.key_length))

  pub key-hex : all_hex key ≡ true
  key-hex =
      rw (r.key_is)
        (to_lower-all_hex (lib.bytes_to_hex c.pub_key) (hex.digits c.pub_key r.key_bytes))

  key-IsColumn : IsColumn 129 9 key
  key-IsColumn =
      all_hex-IsColumn 129 key key-hex (omega (arith, length-key)) (omega (arith, length-key))

  -- The columns with which the first two formats begin.
  pub then-row_front :
      (ds : List Directive) (rest : Str) {vs : List Scanned}
      → scan_with no_reals ds (9 ∷ rest) ≡ vs
      → scan_with no_reals (row_start ++ (path_columns ++ ds)) (row_front lib key c rest)
        ≡ front_values lib key c vs
  then-row_front ds rest h = then-until _ _ _ _ _ key key-IsColumn (
      then-unsigned _ _ _ c.type (omega (arith, r.type_byte)) refl (
        then-unsigned _ _ _ c.last_advert r.last_advert_u32 refl (
          then-unsigned _ _ _ c.last_mod r.last_mod_u32 refl (
            then-signed _ _ _ c.lat r.lat_u32 refl (
              then-signed _ _ _ c.lon r.lon_u32 refl (
                then-unsigned _ _ _ c.out_path_len (omega (arith, r.out.len_byte)) refl (
                  then-blank_until _ _ _ _ _ _
                    (path_text-IsColumn lib hex c.out_path_len c.out_path r.out) h)))))))

  pub key-back : lib.hex_to_bytes key ≡ some c.pub_key
  key-back = ap lib.hex_to_bytes r.key_is ∙ inverts.read_back c.pub_key r.key_bytes

  pub key-lower : to_lower key ≡ key
  key-lower = ap to_lower r.key_is ∙ to_lower_again (lib.bytes_to_hex c.pub_key) ∙ sym r.key_is

  pub type-back : c.type % 256 ≡ c.type
  type-back = omega (arith, r.type_byte)

  pub no_comment : (get_or (contact_row lib key c) 0 0 == b'#') ≡ false
  unfolding contact_row tab_separated
  no_comment = all_hex-no_comment key _ key-hex (omega (arith, length-key))

  module _ (name : IsName c.name) where
    name-IsColumn : IsColumn 63 10 c.name
    name-IsColumn = record {
      solid = name.solid;
      no_stop = name_no_newline c.name name.line;
      short = name.short;
    }

    -- The full format reads every column of the row.
    sscanf-contact_row :
        sscanf full_format (contact_row lib key c)
        ≡ front_values lib key c (
            word c.adv_path_len
            ∷ text (path_text lib c.adv_path)
            ∷ word c.adv_recv_time
            ∷ text c.name
            ∷ [])
    unfolding full_format contact_row tab_separated
    sscanf-contact_row = rw (All-until_nul c.name name.line) (
        sscanf-eq-scan_with _ _ (
          then-row_front _ _ (
            then-unsigned _ _ _ c.adv_path_len (omega (arith, r.adv.len_byte)) refl (
              then-blank_until _ _ _ _ _ _
                (path_text-IsColumn lib hex c.adv_path_len c.adv_path r.adv)
                (then-unsigned _ _ _ c.adv_recv_time r.adv_recv_time_u32 refl
                  (then-blank_until _ _ _ _ _ c.name name-IsColumn (scan_with-nil _ _)))))))

    -- A row is read as the key and the contact that it was written for.
    pub load_row-contact_row : load_row lib (contact_row lib key c) ≡ some (key, as_stored c)
    unfolding load_row scan_row contact_of_row
    load_row-contact_row = rw (
      no_comment,
      sscanf-contact_row,
      key-back,
      r.key_length,
      read_path-path_text lib hex c.out_path_len c.out_path r.out,
      read_path-path_text lib hex c.adv_path_len c.adv_path r.adv,
      type-back,
      key-lower,
    )
