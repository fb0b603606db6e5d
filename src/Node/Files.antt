-- ===== src/Node/Files.antt =====
-- persistContacts and savePrefs of sdr-node/src/node.cpp, and the call of saveChannels: what the
-- node writes to its files, and that a file which cannot be opened stays as it is.
use meshcore_open_sdr.Shared.{List, [], not, ◌&&◌, ◌++◌, ◌∷◌}
use meshcore_open_sdr.Config.Channels.{save_channels}
use meshcore_open_sdr.Library.{Library}
use meshcore_open_sdr.Node.State.{Ambient, Contact, Node}
use meshcore_open_sdr.Shared.Decimal.{show_i32, show_nat}
use meshcore_open_sdr.Shared.Lists.{length}
use meshcore_open_sdr.Shared.Map.{Map}
use meshcore_open_sdr.Shared.Tests.{if◌then◌else◌, ◌==◌}
use meshcore_open_sdr.Shared.Text.{Bytes, Str, codes, is_empty, until_nul}

-- `path.empty() ? "-" : bytesToHex(path)`
unfoldable pub path_text : Library → Bytes → Str
path_text lib path = if is_empty path then b'-' ∷ [] else lib.bytes_to_hex path

-- The fields of a line, with a tab between each two and a newline behind the last.
unfoldable pub tab_separated : List Str → Str
tab_separated [] = 10 ∷ []
tab_separated (s ∷ []) = s ++ (10 ∷ [])
tab_separated (s ∷ t ∷ ss) = s ++ (9 ∷ tab_separated (t ∷ ss))

-- What the format string puts between the tabs.
abbrev pub contact_columns : Library → Str → Contact → List Str
contact_columns lib key c =
    key
    ∷ show_nat c.type
    ∷ show_nat c.last_advert
    ∷ show_nat c.last_mod
    ∷ show_i32 c.lat
    ∷ show_i32 c.lon
    ∷ show_nat c.out_path_len
    ∷ path_text lib c.out_path
    ∷ show_nat c.adv_path_len
    ∷ path_text lib c.adv_path
    ∷ show_nat c.adv_recv_time
    ∷ until_nul c.name
    ∷ []

unfoldable pub contact_row : Library → Str → Contact → Str
unfolding tab_separated path_text show_nat show_i32
contact_row lib key c = tab_separated (contact_columns lib key c)

unfoldable pub contact_rows : Library → Map Str Contact → Str
contact_rows lib [] = []
contact_rows lib ((key, c) ∷ m) = contact_row lib key c ++ contact_rows lib m

unfoldable pub contacts_header : Str
unfolding tab_separated
contacts_header = tab_separated (
    codes "# pubkey"
    ∷ codes "type"
    ∷ codes "last_advert"
    ∷ codes "last_mod"
    ∷ codes "lat"
    ∷ codes "lon"
    ∷ codes "outpathlen"
    ∷ codes "outpath"
    ∷ codes "advpathlen"
    ∷ codes "advpath"
    ∷ codes "advrecv"
    ∷ codes "name"
    ∷ [])

unfoldable pub persist_contacts : Library → Ambient → Node → Node
unfolding contacts_header contact_rows contact_row
persist_contacts lib env n =
    if env.writable
    then record n {
      files = record n.files { contacts = contacts_header ++ contact_rows lib n.contacts };
    }
    else n

unfoldable pub scope_lines : Library → Node → Str
scope_lines lib n =
    if not (is_empty n.scope_name) && length n.scope_key == 16
    then codes "scope_name="
      ++ (until_nul n.scope_name
          ++ (10 ∷ (codes "scope_key=" ++ (lib.bytes_to_hex n.scope_key ++ (10 ∷ [])))))
    else []

unfoldable pub prefs_text : Library → Node → Str
unfolding scope_lines show_nat until_nul
prefs_text lib n =
    codes "# written by meshcore-sdr-node; settings the app can change"
    ++ (10 ∷ (codes "path_hash_mode=" ++ (show_nat n.path_hash_mode ++ (10 ∷ scope_lines lib n))))

unfoldable pub save_prefs : Library → Ambient → Node → Node
unfolding prefs_text
save_prefs lib env n =
    if env.writable then record n { files = record n.files { prefs = prefs_text lib n } } else n

unfoldable pub persist_channels : Ambient → Node → Node
unfolding save_channels
persist_channels env n =
    if env.writable
    then record n { files = record n.files { channels = save_channels n.channels } }
    else n
