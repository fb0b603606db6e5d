-- ===== src/Tests/Restarts.antt =====
-- The files of the node read back, at concrete inputs.
use meshcore_open_sdr.Shared.{[], arith, inl, inr, none, refl, some, true, ◌++◌, ◌-◌, ◌^◌, ◌∷◌, ◌≡◌}
use meshcore_open_sdr.Config.Channels.RoundTrip.{IsWritable}
use meshcore_open_sdr.Node.Command.{command_codes, command_of, handle_command, run_command, select}
use meshcore_open_sdr.Node.Files.{
  contact_row, contact_rows, contacts_header, persist_channels, persist_contacts, save_prefs,
}
use meshcore_open_sdr.Node.Loading.{
  contact_of_row, full_format, is_hex_str, load_contacts_file, load_row, load_rows, scan_row,
}
use meshcore_open_sdr.Node.Loading.Corrupt.{IsLoaded, load_contacts_file-IsLoaded}
use meshcore_open_sdr.Node.Loading.Nameless.{leftover, load_row-no_name}
use meshcore_open_sdr.Node.Loading.PrefsFile.{HasPrefs, prefs_of}
use meshcore_open_sdr.Node.Loading.Rows.{IsName, IsRow, IsStorable, as_stored}
use meshcore_open_sdr.Node.Loading.Table.{stored}
use meshcore_open_sdr.Node.Settings.{set_path_hash_mode}
use meshcore_open_sdr.Node.Start.{Disk, start}
use meshcore_open_sdr.Node.Start.Again.{all_saved, disk_of, start-all_saved}
use meshcore_open_sdr.Node.Start.Durable.{IsDurable, handled-IsDurable}
use meshcore_open_sdr.Node.State.{Ambient, Contact, Node, Outcome, new_contact}
use meshcore_open_sdr.Shared.Lists.{All, replicate}
use meshcore_open_sdr.Shared.Map.{IsSorted, Values, insert, nat_key, str_key}
use meshcore_open_sdr.Shared.Scan.{fgets_all, sscanf}
use meshcore_open_sdr.Shared.Text.{Str, codes, to_lower}
use meshcore_open_sdr.Tests.Configs.{good_channel, good_channel-IsWritable}
use meshcore_open_sdr.Tests.HexText.{sample_lib-HexDigits, sample_lib-HexInverts}
use meshcore_open_sdr.Tests.Samples.{sample_env, sample_lib, sample_node, sample_packet, to_hex}

abbrev bob : Contact
bob = record new_contact {
  pub_key = replicate 32 7;
  name = codes "Bob b";
  last_advert = 1_700_000_000;
  lat = 2 ^ 32 - 5;
  out_path_len = 2;
  out_path = 1 ∷ 255 ∷ [];
}

abbrev bob_key : Str
bob_key = to_hex (replicate 32 7)

bob-IsRow : IsRow sample_lib bob_key bob
unfolding to_lower
bob-IsRow = record {
  key_is = refl;
  key_bytes = omega arith;
  key_length = refl;
  type_byte = omega arith;
  last_advert_u32 = omega arith;
  last_mod_u32 = omega arith;
  lat_u32 = omega arith;
  lon_u32 = omega arith;
  out = record { bytes = omega arith; at_most_64 = omega arith; len_byte = omega arith };
  adv = record { bytes = omega arith; at_most_64 = omega arith; len_byte = omega arith };
  adv_recv_time_u32 = omega arith;
}

bob-IsName : IsName bob.name
bob-IsName = record { solid = refl; line = omega arith; short = omega arith }

bob-IsStorable : IsStorable sample_lib bob_key bob
bob-IsStorable = record { row = bob-IsRow; name = bob-IsName }

-- The row of a contact by the loader itself.
bob_back :
    load_contacts_file sample_lib
      (some (contacts_header ++ contact_rows sample_lib ((bob_key, bob) ∷ [])))
    ≡ (bob_key, bob) ∷ []
unfolding load_contacts_file contacts_header contact_rows load_rows fgets_all contact_row load_row
    scan_row sscanf full_format contact_of_row is_hex_str insert to_lower
bob_back = refl

abbrev saveable_node : Node
saveable_node = record sample_node {
  contacts = (bob_key, bob) ∷ [];
  channels = good_channel ∷ [];
  path_hash_mode = 2;
  scope_name = codes "area";
  scope_key = replicate 16 200;
}

abbrev writable_env : Ambient
writable_env = record sample_env { writable = true }

saveable_node-HasPrefs : HasPrefs saveable_node
saveable_node-HasPrefs = record {
  mode_byte = omega arith;
  scope = inr (record {
    name_solid = refl;
    name_line = omega arith;
    name_short = omega arith;
    key_bytes = omega arith;
    key_length = refl;
  });
}

abbrev restarted : Node
restarted =
    start sample_lib sample_node.cfg 1 sample_node.id sample_node.radio 50
      (disk_of (all_saved sample_lib writable_env saveable_node).files)

start-all_saved_example :
    (restarted.channels ≡ saveable_node.channels)
    × (restarted.contacts ≡ stored saveable_node.contacts)
    × (prefs_of restarted ≡ prefs_of saveable_node)
start-all_saved_example =
    start-all_saved sample_lib sample_node.cfg 1 sample_node.id sample_node.radio 50 writable_env
      saveable_node sample_lib-HexInverts sample_lib-HexDigits refl (tt, tt)
      (record {
        channels = (good_channel-IsWritable, tt);
        contacts = (bob-IsStorable, tt);
        prefs = saveable_node-HasPrefs;
      })

abbrev damaged : Disk
damaged = record {
  channels = some (codes "no comma\n");
  contacts = some (codes "zz\t1\t2\n\nff");
  prefs = none;
}

abbrev nameless : Contact
nameless = record bob { name = []; adv_recv_time = 1_700_000_100 }

nameless-IsRow : IsRow sample_lib bob_key nameless
unfolding to_lower
nameless-IsRow = record {
  key_is = refl;
  key_bytes = omega arith;
  key_length = refl;
  type_byte = omega arith;
  last_advert_u32 = omega arith;
  last_mod_u32 = omega arith;
  lat_u32 = omega arith;
  lon_u32 = omega arith;
  out = record { bytes = omega arith; at_most_64 = omega arith; len_byte = omega arith };
  adv = record { bytes = omega arith; at_most_64 = omega arith; len_byte = omega arith };
  adv_recv_time_u32 = omega arith;
}

load_row-no_name_example :
    load_row sample_lib (contact_row sample_lib bob_key nameless)
    ≡ some (
      bob_key,
      record (as_stored nameless) {
        name = leftover nameless;
        adv_path_len = 0xFF;
        adv_path = [];
        adv_recv_time = 0;
      },
    )
load_row-no_name_example =
    load_row-no_name sample_lib sample_lib-HexInverts sample_lib-HexDigits bob_key nameless
      nameless-IsRow refl refl

load_contacts_file-IsLoaded_example :
    IsSorted (load_contacts_file sample_lib damaged.contacts)
    × Values IsLoaded (load_contacts_file sample_lib damaged.contacts)
load_contacts_file-IsLoaded_example = load_contacts_file-IsLoaded sample_lib damaged.contacts

-- The node that has written its files, and the path hash mode set to 1.
abbrev saved_node : Node
saved_node = all_saved sample_lib writable_env saveable_node

saved_node-IsDurable :
    IsDurable sample_lib sample_node.cfg 1 sample_node.id sample_node.radio 50 saved_node
unfolding IsDurable persist_channels persist_contacts save_prefs
saved_node-IsDurable =
    let (channels, contacts, prefs) = start-all_saved_example in (channels, prefs)

abbrev mode_set : Outcome
mode_set = set_path_hash_mode sample_lib writable_env saved_node (61 ∷ 0 ∷ 1 ∷ [])

sets_mode : handle_command sample_lib writable_env saved_node (61 ∷ 0 ∷ 1 ∷ []) ≡ some mode_set
unfolding handle_command run_command command_of select command_codes
sets_mode = refl

mode_set-channels : All IsWritable mode_set.node.channels
unfolding set_path_hash_mode save_prefs persist_channels persist_contacts
mode_set-channels = (good_channel-IsWritable, tt)

mode_set-HasPrefs : HasPrefs mode_set.node
unfolding set_path_hash_mode save_prefs persist_channels persist_contacts
mode_set-HasPrefs = record { mode_byte = omega arith; scope = saveable_node-HasPrefs.scope }

handled-IsDurable_example :
    IsDurable sample_lib sample_node.cfg 1 sample_node.id sample_node.radio 50 mode_set.node
handled-IsDurable_example =
    handled-IsDurable sample_lib sample_node.cfg 1 sample_node.id sample_node.radio 50 writable_env
      saved_node (61 ∷ 0 ∷ 1 ∷ []) sample_packet mode_set sample_lib-HexDigits refl
      saved_node-IsDurable (inl sets_mode) mode_set-channels mode_set-HasPrefs
