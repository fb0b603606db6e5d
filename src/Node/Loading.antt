-- ===== src/Node/Loading.antt =====
-- How a node starts, in sdr-node/src/node.cpp: the constructor with loadContactsFile and loadPrefs,
-- which read back the files that the node wrote in an earlier run.
pub mod Columns
pub mod Rows
pub mod Table
pub mod PrefsFile
pub mod Corrupt
pub mod Nameless
use meshcore_open_sdr.Shared.{Bool, List, Option, [], none, not, some, ℕ, ◌%◌, ◌&&◌, ◌++◌, ◌^◌, ◌∷◌}
use meshcore_open_sdr.Config.Channels.{all_hex, is_hex_digit}
use meshcore_open_sdr.Library.{Library}
use meshcore_open_sdr.Node.State.{Contact}
use meshcore_open_sdr.Shared.Lists.{get_or, length}
use meshcore_open_sdr.Shared.Map.{Map, insert, nat_key, str_key}
use meshcore_open_sdr.Shared.Scan.{
  Directive, Scanned, ato_bits, blanks, byte, fgets_all, signed, sscanf, text, unsigned, until,
  word,
}
use meshcore_open_sdr.Shared.Tests.{if◌then◌else◌, leb, ◌==◌, ◌>>=◌}
use meshcore_open_sdr.Shared.Text.{Bytes, Str, codes, is_empty, str_eq, to_lower}

-- `isHexStr`
abbrev is_xdigit : ℕ → Bool
is_xdigit c = is_hex_digit c

unfoldable pub is_hex_str : Str → Bool
unfolding all_hex
is_hex_str s = not (is_empty s) && all_hex s

-- "%129[^\t]\t%u\t%u\t%u\t%d\t%d", with which all three formats begin: a tab in a format is any
-- white space.
abbrev pub row_start : List Directive
row_start =
    until 129 9
    ∷ blanks
    ∷ unsigned
    ∷ blanks
    ∷ unsigned
    ∷ blanks
    ∷ unsigned
    ∷ blanks
    ∷ signed
    ∷ blanks
    ∷ signed
    ∷ []

-- "\t%u\t%139[^\t]", the length of a path and the path.
abbrev pub path_columns : List Directive
path_columns = blanks ∷ unsigned ∷ blanks ∷ until 139 9 ∷ []

-- "\t%63[^\n]"
abbrev pub name_column : List Directive
name_column = blanks ∷ until 63 10 ∷ []

unfoldable pub full_format : List Directive
full_format = row_start ++ (path_columns ++ (path_columns ++ (blanks ∷ unsigned ∷ name_column)))

unfoldable pub path_format : List Directive
path_format = row_start ++ (path_columns ++ name_column)

unfoldable pub old_format : List Directive
old_format = row_start ++ name_column

-- The variables of loadContactsFile behind its calls of sscanf.
pub record Row : Type 0 where
  pub key : Str
  pub type : ℕ
  pub last_advert : ℕ
  pub last_mod : ℕ
  pub lat : ℕ
  pub lon : ℕ
  pub out_path_len : ℕ
  pub out_path : Str
  pub adv_path_len : ℕ
  pub adv_path : Str
  pub adv_recv_time : ℕ
  pub name : Str

abbrev pub word_at : List Scanned → ℕ → ℕ
word_at vs i = elim (get_or vs i (word 0)) [ word n ↦ n | text s ↦ 0 ]

abbrev pub text_at : List Scanned → ℕ → Str
text_at vs i = elim (get_or vs i (text [])) [ word n ↦ [] | text s ↦ s ]

abbrev pub full_row : List Scanned → Row
full_row vs = record {
  key = text_at vs 0;
  type = word_at vs 1;
  last_advert = word_at vs 2;
  last_mod = word_at vs 3;
  lat = word_at vs 4;
  lon = word_at vs 5;
  out_path_len = word_at vs 6;
  out_path = text_at vs 7;
  adv_path_len = word_at vs 8;
  adv_path = text_at vs 9;
  adv_recv_time = word_at vs 10;
  name = text_at vs 11;
}

-- Without the columns of the advert's path, and without those of either path: what a call before
-- stored there is reset.
abbrev pub path_row : List Scanned → Row
path_row vs = record (full_row vs) {
  adv_path_len = 0xFF;
  adv_path = [];
  adv_recv_time = 0;
  name = text_at vs 8;
}

abbrev pub old_row : List Scanned → Row
old_row vs = record (path_row vs) { out_path_len = 0xFF; out_path = []; name = text_at vs 6 }

-- The full format, then the two older ones.
unfoldable pub scan_row : Str → Option Row
scan_row line =
    let full = sscanf full_format line in
    let with_path = sscanf path_format line in
    let old = sscanf old_format line in
    if leb 12 (length full)
    then some (full_row full)
    else if leb 9 (length with_path)
    then some (path_row with_path)
    else if leb 7 (length old)
    then some (old_row old)
    else none

-- `if (isHexStr(s)) path = hexToBytes(s); else len = 0xFF;`, where hexToBytes may throw.
abbrev pub read_path : Library → ℕ → Str → Option (ℕ × Bytes)
read_path lib len s =
    if is_hex_str s
    then elim (lib.hex_to_bytes s) [ none ↦ none | some path ↦ some (len % 256, path) ]
    else some (0xFF, [])

abbrev pub contact_of : Row → Bytes → ℕ × Bytes → ℕ × Bytes → Contact
contact_of r pub_key out adv = record {
  pub_key = pub_key;
  type = r.type % 256;
  name = r.name;
  last_advert = r.last_advert;
  last_mod = r.last_mod;
  lat = r.lat;
  lon = r.lon;
  secret_hex = [];
  adv_path_len = adv.0;
  adv_path = adv.1;
  adv_recv_time = r.adv_recv_time;
  out_path_len = out.0;
  out_path = out.1;
}

-- `none` where a path is no hex text: the row is skipped.
abbrev pub contact_with : Library → Row → Bytes → Option Contact
contact_with lib r pub_key = do
  out ← read_path lib r.out_path_len r.out_path
  adv ← read_path lib r.adv_path_len r.adv_path
  some (contact_of r pub_key out adv)

unfoldable pub contact_of_row : Library → Row → Option Contact
contact_of_row lib r = do
  pub_key ← lib.hex_to_bytes r.key
  if length pub_key == 32 then contact_with lib r pub_key else none

-- The key under which the row's contact is kept, and the contact.
unfoldable pub load_row : Library → Str → Option (Str × Contact)
load_row lib line =
    let read = (do r ← scan_row line; c ← contact_of_row lib r; some (to_lower r.key, c)) in
    if get_or line 0 0 == b'#' then none else read

unfoldable pub load_rows : Library → List Str → Map Str Contact → Map Str Contact
load_rows lib [] m = m
load_rows lib (l ∷ ls) m =
    load_rows lib ls (elim (load_row lib l) [ none ↦ m | some (key, c) ↦ insert key c m ])

-- The file's text, or `none` where it cannot be opened.
unfoldable pub load_contacts_file : Library → Option Str → Map Str Contact
load_contacts_file lib none = []
load_contacts_file lib (some s) = load_rows lib (fgets_all 512 s) []

-- The settings that loadPrefs reads.
pub record Prefs : Type 0 where
  pub path_hash_mode : ℕ
  pub scope_name : Str
  pub scope_key : Bytes

-- "%63[^=]=%159[^\n]"
abbrev pub pref_format : List Directive
pref_format = until 63 b'=' ∷ byte b'=' ∷ until 159 10 ∷ []

unfoldable pub drop_last_spaces : Str → Str
drop_last_spaces [] = []
drop_last_spaces (c ∷ s) =
    let rest = drop_last_spaces s in if is_empty rest && c == b' ' then [] else c ∷ rest

unfoldable pub drop_first_spaces : Str → Str
drop_first_spaces [] = []
drop_first_spaces (c ∷ s) = let rest = drop_first_spaces s in if c == b' ' then rest else c ∷ s

abbrev bytes_or_none : Option Bytes → Bytes
bytes_or_none none = []
bytes_or_none (some b) = b

unfoldable pub set_pref : Library → Str → Str → Prefs → Prefs
set_pref lib k v p =
    if str_eq k (codes "path_hash_mode")
    then record p { path_hash_mode = ato_bits 8 v }
    else if str_eq k (codes "scope_name")
    then record p { scope_name = v }
    else if str_eq k (codes "scope_key") && length v == 32
    then record p { scope_key = bytes_or_none (lib.hex_to_bytes v) }
    else p

abbrev scanned_pref : Library → List Scanned → Prefs → Prefs
scanned_pref lib (text k ∷ text v ∷ []) p =
    set_pref lib (drop_last_spaces k) (drop_first_spaces v) p
scanned_pref lib _ p = p

unfoldable pub load_pref : Library → Str → Prefs → Prefs
load_pref lib line p =
    if get_or line 0 0 == b'#' then p else scanned_pref lib (sscanf pref_format line) p

unfoldable pub load_pref_lines : Library → List Str → Prefs → Prefs
load_pref_lines lib [] p = p
load_pref_lines lib (l ∷ ls) p = load_pref_lines lib ls (load_pref lib l p)

-- From `path_hash_mode` of the configuration, an int32_t.
unfoldable pub load_prefs : Library → ℕ → Option Str → Prefs
load_prefs lib mode file =
    let from_config : Prefs = record {
      path_hash_mode = mode % 2 ^ 8;
      scope_name = [];
      scope_key = [];
    } in
    elim file [ none ↦ from_config | some s ↦ load_pref_lines lib (fgets_all 256 s) from_config ]
