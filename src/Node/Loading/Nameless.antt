-- ===== src/Node/Loading/Nameless.antt =====
-- A contact without a name in the contact file of sdr-node/src/node.cpp: the full format fails at
-- the name, and the format without the advert's path takes those columns for the name.
use meshcore_open_sdr.Shared.{
  [], ap, arith, false, refl, some, sym, ℕ, ◌++◌, ◌+◌, ◌<◌, ◌∙◌, ◌∷◌, ◌≡◌, ◌≢◌, ◌≤◌,
}
use meshcore_open_sdr.Library.{HexDigits, HexInverts, Library}
use meshcore_open_sdr.Node.Files.{contact_row, path_text, tab_separated}
use meshcore_open_sdr.Node.Loading.{
  contact_of_row, full_format, is_hex_str, load_row, name_column, path_format, scan_row,
}
use meshcore_open_sdr.Node.Loading.Columns.{read_path-path_text}
use meshcore_open_sdr.Node.Loading.Rows.{
  IsRow, as_stored, front_values, key-back, key-lower, no_comment, row_front, then-row_front,
  type-back,
}
use meshcore_open_sdr.Node.State.{Contact}
use meshcore_open_sdr.Shared.Decimal.{show_nat}
use meshcore_open_sdr.Shared.Lists.{All, length, length-append}
use meshcore_open_sdr.Shared.Scan.{
  convert, is_blank, no_reals, read_until, scan_with, skip_blanks, sscanf, text, word,
}
use meshcore_open_sdr.Shared.Scan.Fields.{
  IsColumn, scan_with-nil, sscanf-eq-scan_with, then-blank_until, then-unsigned,
}
use meshcore_open_sdr.Shared.Scan.Lines.{All-IsLineByte-append, IsLineByte, show_nat-IsLineByte}
use meshcore_open_sdr.Shared.Scan.Numbers.{length-show_nat, show_nat-StartsDigit}
use meshcore_open_sdr.Shared.Text.{Str, until_nul}
use mathlib.Core.List.{append_assoc}

-- The columns behind the first path, where there is no advert path: its length, a dash, the time,
-- and the empty name behind the last tab.
abbrev pub leftover : Contact → Str
leftover c = show_nat c.adv_path_len ++ (9 ∷ b'-' ∷ 9 ∷ (show_nat c.adv_recv_time ++ (9 ∷ [])))

leftover-line : (c : Contact) → All IsLineByte (leftover c)
leftover-line c =
    All-IsLineByte-append (show_nat c.adv_path_len) _ (show_nat-IsLineByte c.adv_path_len) (
      omega arith,
      (
        omega arith,
        (
          omega arith,
          All-IsLineByte-append (show_nat c.adv_recv_time) (9 ∷ [])
              (show_nat-IsLineByte c.adv_recv_time) (omega arith),
        ),
      ),
    )

leftover-no_newline : (s : Str) → All IsLineByte s → All (λ c. c ≢ 10) s
leftover-no_newline [] h = tt
leftover-no_newline (c ∷ s) h = (h.0.1, leftover-no_newline s h.1)

digit-solid : (d : ℕ) → d < 10 → is_blank (b'0' + d) ≡ false
digit-solid d h = ground arith

module _ (lib : Library) (inverts : HexInverts lib) (hex : HexDigits lib) (key : Str) (c : Contact)
    (r : IsRow lib key c) (no_name : c.name ≡ []) (no_path : c.adv_path ≡ []) where
  leftover-short : length (leftover c) ≤ 63
  leftover-short = omega (
    arith,
    length-append (show_nat c.adv_path_len) (9 ∷ b'-' ∷ 9 ∷ (show_nat c.adv_recv_time ++ (9 ∷ []))),
    length-append (show_nat c.adv_recv_time) (9 ∷ []),
    length-show_nat c.adv_path_len 2 (omega (arith, r.adv.len_byte)),
    length-show_nat c.adv_recv_time 9 (omega (arith, r.adv_recv_time_u32)),
  )

  leftover-IsColumn : IsColumn 63 10 (leftover c)
  leftover-IsColumn =
      let (d, t, lt, e) = show_nat-StartsDigit c.adv_path_len in
      record {
        solid = rw e (digit-solid d lt);
        no_stop = leftover-no_newline (leftover c) (leftover-line c);
        short = leftover-short;
      }

  dash : path_text lib c.adv_path ≡ b'-' ∷ []
  unfolding path_text
  dash = rw no_path

  row_end : Str
  row_end = show_nat c.adv_path_len ++ (9 ∷ b'-' ∷ 9 ∷ (show_nat c.adv_recv_time ++ (9 ∷ 10 ∷ [])))

  contact_row-row_end : contact_row lib key c ≡ row_front lib key c row_end
  unfolding contact_row tab_separated row_end until_nul
  contact_row-row_end = rw (no_name, dash)

  row_end-leftover : row_end ≡ leftover c ++ (10 ∷ [])
  unfolding row_end
  row_end-leftover =
      ap (λ (s : Str). show_nat c.adv_path_len ++ (9 ∷ b'-' ∷ 9 ∷ s))
        (sym (append_assoc (show_nat c.adv_recv_time) (9 ∷ []) (10 ∷ [])))
      ∙ sym (append_assoc (show_nat c.adv_path_len) _ (10 ∷ []))

  dash-IsColumn : IsColumn 139 9 (b'-' ∷ [])
  dash-IsColumn = record { solid = refl; no_stop = omega arith; short = omega arith }

  no_name_left : scan_with no_reals name_column (9 ∷ 10 ∷ []) ≡ []
  unfolding scan_with convert skip_blanks read_until
  no_name_left = refl

  -- The full format stops in front of the name, with eleven values.
  sscanf-full :
      sscanf full_format (contact_row lib key c)
      ≡ front_values lib key c (word c.adv_path_len ∷ text (b'-' ∷ []) ∷ word c.adv_recv_time ∷ [])
  unfolding full_format row_end
  sscanf-full =
      ap (sscanf full_format) contact_row-row_end
      ∙ sscanf-eq-scan_with _ _ (
          then-row_front lib inverts hex key c r _ row_end (
            then-unsigned _ _ _ c.adv_path_len (omega (arith, r.adv.len_byte)) refl (
              then-blank_until _ _ _ 139 9 (b'-' ∷ []) dash-IsColumn
                (then-unsigned _ _ _ c.adv_recv_time r.adv_recv_time_u32 refl no_name_left))))

  sscanf-path :
      sscanf path_format (contact_row lib key c) ≡ front_values lib key c (text (leftover c) ∷ [])
  unfolding path_format
  sscanf-path =
      ap (sscanf path_format) (contact_row-row_end ∙ ap (row_front lib key c) row_end-leftover)
      ∙ sscanf-eq-scan_with _ _ (
          then-row_front lib inverts hex key c r name_column (leftover c ++ (10 ∷ []))
            (then-blank_until _ _ [] 63 10 (leftover c) leftover-IsColumn (scan_with-nil _ _)))

  -- A contact with no name, whose advert gave no path either, comes back with the leftover columns
  -- as its name, and without the time at which its advert was received.
  pub load_row-no_name :
      load_row lib (contact_row lib key c)
      ≡ some (
        key,
        record (as_stored c) {
          name = leftover c;
          adv_path_len = 0xFF;
          adv_path = [];
          adv_recv_time = 0;
        },
      )
  unfolding load_row scan_row contact_of_row
  load_row-no_name =
      rw
        (
          no_comment lib inverts hex key c r,
          sscanf-full,
          sscanf-path,
          key-back lib inverts hex key c r,
          r.key_length,
          read_path-path_text lib hex c.out_path_len c.out_path r.out,
          type-back lib inverts hex key c r,
          key-lower lib inverts hex key c r,
        )
        (unfold is_hex_str in refl)
