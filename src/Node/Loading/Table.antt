-- ===== src/Node/Loading/Table.antt =====
-- The whole contact file of sdr-node/src/node.cpp: what persistContacts wrote is what
-- loadContactsFile finds.
use meshcore_open_sdr.Shared.{
  List, [], ap, arith, none, refl, some, sym, true, ℕ, ◌++◌, ◌+◌, ◌∙◌, ◌∷◌, ◌≡◌, ◌≤◌,
}
use meshcore_open_sdr.Library.{HexDigits, HexInverts, Library}
use meshcore_open_sdr.Node.Files.{
  contact_columns, contact_row, contact_rows, contacts_header, tab_separated,
}
use meshcore_open_sdr.Node.Loading.{load_contacts_file, load_row, load_rows}
use meshcore_open_sdr.Node.Loading.Columns.{
  all_hex-IsLineByte, length-path_text, path_text-IsLineByte,
}
use meshcore_open_sdr.Node.Loading.Rows.{
  IsStorable, as_stored, key-hex, length-key, load_row-contact_row,
}
use meshcore_open_sdr.Node.State.{Contact}
use meshcore_open_sdr.Shared.Lists.{All, All-append, length, length-append}
use meshcore_open_sdr.Shared.Map.{IsAbove, IsSorted, Map, insert, insert_last, nat_key, str_key}
use meshcore_open_sdr.Shared.Scan.{fgets_all}
use meshcore_open_sdr.Shared.Scan.Lines.{
  All-IsLineByte-append, All-until_nul, IsLineByte, fgets_all-line, show_i32-IsLineByte,
  show_nat-IsLineByte,
}
use meshcore_open_sdr.Shared.Scan.Numbers.{length-show_i32, length-show_nat}
use meshcore_open_sdr.Shared.Text.{Str, length-until_nul, str_lt}
use mathlib.Core.List.{append-nil, append_assoc}

-- A line without its newline.
joined : List Str → Str
joined [] = []
joined (s ∷ []) = s
joined (s ∷ t ∷ ss) = s ++ (9 ∷ joined (t ∷ ss))

tab_separated-joined : (ss : List Str) → tab_separated ss ≡ joined ss ++ (10 ∷ [])
unfolding tab_separated joined
tab_separated-joined [] = refl
tab_separated-joined (s ∷ []) = refl
tab_separated-joined (s ∷ t ∷ ss) =
    ap (λ (r : Str). s ++ (9 ∷ r)) (tab_separated-joined (t ∷ ss))
    ∙ sym (append_assoc s (9 ∷ joined (t ∷ ss)) (10 ∷ []))

-- The bytes of a line's columns, with one for each tab and for the newline.
columns_length : List Str → ℕ
columns_length [] = 0
columns_length (s ∷ ss) = length s + 1 + columns_length ss

length-tab_separated : (ss : List Str) → length (tab_separated ss) ≤ columns_length ss + 1
unfolding tab_separated columns_length
length-tab_separated [] = omega arith
length-tab_separated (s ∷ []) = omega (arith, length-append s (10 ∷ []))
length-tab_separated (s ∷ t ∷ ss) =
    omega (arith, length-append s (9 ∷ tab_separated (t ∷ ss)), length-tab_separated (t ∷ ss))

joined-IsLineByte : (ss : List Str) → All (λ s. All IsLineByte s) ss → All IsLineByte (joined ss)
unfolding joined
joined-IsLineByte [] h = tt
joined-IsLineByte (s ∷ []) h = h.0
joined-IsLineByte (s ∷ t ∷ ss) h =
    All-IsLineByte-append s (9 ∷ joined (t ∷ ss)) h.0
      (((λ e. omega (arith, e)), (λ e. omega (arith, e))), joined-IsLineByte (t ∷ ss) h.1)

-- A line of columns is one line for fgets.
fgets_all-tab_separated :
    (ss : List Str) (rest : Str)
    → All (λ s. All IsLineByte s) ss
    → length (tab_separated ss) ≤ 511
    → fgets_all 512 (tab_separated ss ++ rest) ≡ tab_separated ss ∷ fgets_all 512 rest
fgets_all-tab_separated ss rest h fits =
    let e = tab_separated-joined ss in
    let short : length (joined ss) + 2 ≤ 512 =
      omega (arith, fits, ap length e, length-append (joined ss) (10 ∷ [])) in
    ap (λ (s : Str). fgets_all 512 (s ++ rest)) e
    ∙ ap (fgets_all 512) (append_assoc (joined ss) (10 ∷ []) rest)
    ∙ fgets_all-line 512 (joined ss) rest (joined-IsLineByte ss h) short
    ∙ ap (λ (s : Str). s ∷ fgets_all 512 rest) (sym e)

header_line :
    (rest : Str) → fgets_all 512 (contacts_header ++ rest) ≡ contacts_header ∷ fgets_all 512 rest
unfolding fgets_all contacts_header
header_line rest = refl

load_row-header : (lib : Library) → load_row lib contacts_header ≡ none
unfolding load_row contacts_header
load_row-header lib = refl

-- What is left of the contact list.
pub stored : Map Str Contact → Map Str Contact
stored [] = []
stored ((key, c) ∷ m) = (key, as_stored c) ∷ stored m

-- Every entry of the contact list can be written.
abbrev pub AllStorable : Library → Map Str Contact → Type 0
AllStorable lib = All (λ e. IsStorable lib e.0 e.1)

-- All keys of the first map are below those of the second.
abbrev IsBelow : Map Str Contact → Map Str Contact → Type 0
IsBelow front m = All (λ e. IsAbove e.0 m) front

split_first :
    (front : Map Str Contact) (key : Str) (c : Contact) (m : Map Str Contact)
    → IsBelow front ((key, c) ∷ m)
    → All (λ e. str_lt e.0 key ≡ true) front × IsBelow front m
split_first [] key c m h = (tt, tt)
split_first (e ∷ front) key c m h =
    let (a, b) = split_first front key c m h.1 in ((h.0.0, a), (h.0.1, b))

module _ (lib : Library) (inverts : HexInverts lib) (hex : HexDigits lib) where
  key-IsLineByte : (key : Str) (c : Contact) → IsStorable lib key c → All IsLineByte key
  key-IsLineByte key c s = all_hex-IsLineByte key (key-hex lib inverts hex key c s.row)

  columns-IsLineByte :
      (key : Str) (c : Contact)
      → IsStorable lib key c
      → All (λ s. All IsLineByte s) (contact_columns lib key c)
  columns-IsLineByte key c s = (
    key-IsLineByte key c s,
    (
      show_nat-IsLineByte c.type,
      (
        show_nat-IsLineByte c.last_advert,
        (
          show_nat-IsLineByte c.last_mod,
          (
            show_i32-IsLineByte c.lat,
            (
              show_i32-IsLineByte c.lon,
              (
                show_nat-IsLineByte c.out_path_len,
                (
                  path_text-IsLineByte lib hex c.out_path_len c.out_path s.row.out,
                  (
                    show_nat-IsLineByte c.adv_path_len,
                    (
                      path_text-IsLineByte lib hex c.adv_path_len c.adv_path s.row.adv,
                      (
                        show_nat-IsLineByte c.adv_recv_time,
                        (rw (All-until_nul c.name s.name.line) s.name.line, tt),
                      ),
                    ),
                  ),
                ),
              ),
            ),
          ),
        ),
      ),
    ),
  )

  -- A row always fits into the 512 bytes that loadContactsFile reads at once.
  row_fits :
      (key : Str) (c : Contact)
      → IsStorable lib key c
      → length (tab_separated (contact_columns lib key c)) ≤ 511
  unfolding columns_length
  row_fits key c s = omega (
    arith,
    length-tab_separated (contact_columns lib key c),
    length-key lib inverts hex key c s.row,
    length-show_nat c.type 2 (omega (arith, s.row.type_byte)),
    length-show_nat c.last_advert 9 (omega (arith, s.row.last_advert_u32)),
    length-show_nat c.last_mod 9 (omega (arith, s.row.last_mod_u32)),
    length-show_i32 c.lat s.row.lat_u32,
    length-show_i32 c.lon s.row.lon_u32,
    length-show_nat c.out_path_len 2 (omega (arith, s.row.out.len_byte)),
    length-path_text lib hex c.out_path_len c.out_path s.row.out,
    length-show_nat c.adv_path_len 2 (omega (arith, s.row.adv.len_byte)),
    length-path_text lib hex c.adv_path_len c.adv_path s.row.adv,
    length-show_nat c.adv_recv_time 9 (omega (arith, s.row.adv_recv_time_u32)),
    length-until_nul c.name,
    s.name.short,
  )

  contact_row_line :
      (key : Str) (c : Contact) (rest : Str)
      → IsStorable lib key c
      → fgets_all 512 (contact_row lib key c ++ rest) ≡ contact_row lib key c ∷ fgets_all 512 rest
  unfolding contact_row
  contact_row_line key c rest s =
      fgets_all-tab_separated (contact_columns lib key c) rest (columns-IsLineByte key c s)
        (row_fits key c s)

  load_rows-row :
      (l : Str) (ls : List Str) (key : Str) (c : Contact) (front : Map Str Contact)
      → load_row lib l ≡ some (key, c)
      → load_rows lib (l ∷ ls) front ≡ load_rows lib ls (insert key c front)
  unfolding load_rows
  load_rows-row l ls key c front e = rw (e, load_rows)

  load_rows-skipped :
      (l : Str) (ls : List Str) (front : Map Str Contact)
      → load_row lib l ≡ none
      → load_rows lib (l ∷ ls) front ≡ load_rows lib ls front
  unfolding load_rows
  load_rows-skipped l ls front e = rw (e, load_rows)

  no_rows : (front : Map Str Contact) → load_rows lib (fgets_all 512 []) front ≡ front
  unfolding load_rows fgets_all
  no_rows front = refl

  load_rows-contact_rows :
      (front m : Map Str Contact)
      → AllStorable lib m
      → IsSorted m
      → IsBelow front m
      → load_rows lib (fgets_all 512 (contact_rows lib m)) front ≡ front ++ stored m
  unfolding contact_rows stored
  load_rows-contact_rows front [] a s b = no_rows front ∙ sym (append-nil front)
  load_rows-contact_rows front ((key, c) ∷ m) (here, a) (above, s) b =
      let (under, b') = split_first front key c m b in
      let row = contact_row lib key c in
      let back = load_row-contact_row lib inverts hex key c here.row here.name in
      ap (λ (ls : List Str). load_rows lib ls front)
        (contact_row_line key c (contact_rows lib m) here)
      ∙ load_rows-row row (fgets_all 512 (contact_rows lib m)) key (as_stored c) front back
      ∙ ap (load_rows lib (fgets_all 512 (contact_rows lib m)))
          (insert_last key (as_stored c) front under)
      ∙ load_rows-contact_rows (front ++ ((key, as_stored c) ∷ [])) m a s
          (All-append (λ e. IsAbove e.0 m) front ((key, as_stored c) ∷ []) b' (above, tt))
      ∙ append_assoc front ((key, as_stored c) ∷ []) (stored m)

  -- The file that persistContacts writes gives back every contact, under the same key and with
  -- nothing lost but the cached secrets and the lengths of empty paths.
  pub load_contacts_file-contact_rows :
      (m : Map Str Contact)
      → AllStorable lib m
      → IsSorted m
      → load_contacts_file lib (some (contacts_header ++ contact_rows lib m)) ≡ stored m
  unfolding load_contacts_file
  load_contacts_file-contact_rows m a s =
      ap (λ (ls : List Str). load_rows lib ls []) (header_line (contact_rows lib m))
      ∙ load_rows-skipped contacts_header (fgets_all 512 (contact_rows lib m)) []
          (load_row-header lib)
      ∙ load_rows-contact_rows [] m a s tt
