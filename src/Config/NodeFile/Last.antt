-- ===== src/Config/NodeFile/Last.antt =====
-- Which line of the configuration file decides a setting, for NodeConfig::load of
-- sdr-node/src/node_config.cpp.
use mathlib.Core.Option
use meshcore_open_sdr.Shared.{
  Bool, List, Option, [], ap, inl, inr, none, not, refl, some, ℕ, ◌∙◌, ◌∷◌, ◌≡◌,
}
use meshcore_open_sdr.Config.Channels.{split_at, starts_comment, trim}
use meshcore_open_sdr.Config.NodeFile.{
  ConfigKey, NodeConfig, advert_interval_min_key, assign, bw_key, channels_file_key, config_keys,
  contacts_file_key, default_config, find_key, identity_file_key, lat_key, load_config,
  log_rx_data_key, lon_key, name_key, path_hash_mode_key, port_key, prefs_file_key, read_option,
  read_options, rx_binary_key, rx_channels_key, rx_device_key, rx_ppm_key, rx_sfs_key, set_option,
  set_parted, tx_amp_key, tx_binary_key, tx_cr_key, tx_duty_key, tx_freq_key, tx_ppm_key, tx_sf_key,
  tx_vga_key,
}
use meshcore_open_sdr.Shared.Decimal.{lines}
use meshcore_open_sdr.Shared.Scan.{ato_bits}
use meshcore_open_sdr.Shared.Tests.{Bool-cases, Option-cases, if◌then◌else◌, ◌==◌}
use meshcore_open_sdr.Shared.Text.{Str}

-- The value of one setting.
pub data Setting (Real : Type 0) : Type 0 where
  as_text : Str → Setting Real
  as_word : ℕ → Setting Real
  as_flag : Bool → Setting Real
  as_real : Real → Setting Real
  as_place : Option Real → Setting Real

abbrev pub key_index : ConfigKey → ℕ
key_index name_key = 0
key_index identity_file_key = 1
key_index channels_file_key = 2
key_index contacts_file_key = 3
key_index prefs_file_key = 4
key_index path_hash_mode_key = 5
key_index lat_key = 6
key_index lon_key = 7
key_index port_key = 8
key_index advert_interval_min_key = 9
key_index log_rx_data_key = 10
key_index rx_binary_key = 11
key_index tx_binary_key = 12
key_index rx_device_key = 13
key_index rx_channels_key = 14
key_index rx_sfs_key = 15
key_index bw_key = 16
key_index rx_ppm_key = 17
key_index tx_freq_key = 18
key_index tx_sf_key = 19
key_index tx_cr_key = 20
key_index tx_ppm_key = 21
key_index tx_vga_key = 22
key_index tx_amp_key = 23
key_index tx_duty_key = 24

abbrev pub same_key : ConfigKey → ConfigKey → Bool
same_key j k = key_index j == key_index k

abbrev pub setting : {Real : Type 0} → ConfigKey → NodeConfig Real → Setting Real
setting name_key c = as_text c.name
setting identity_file_key c = as_text c.identity_file
setting channels_file_key c = as_text c.channels_file
setting contacts_file_key c = as_text c.contacts_file
setting prefs_file_key c = as_text c.prefs_file
setting path_hash_mode_key c = as_word c.path_hash_mode
setting lat_key c = as_place c.lat
setting lon_key c = as_place c.lon
setting port_key c = as_word c.port
setting advert_interval_min_key c = as_word c.advert_interval_min
setting log_rx_data_key c = as_flag c.log_rx_data
setting rx_binary_key c = as_text c.rx_binary
setting tx_binary_key c = as_text c.tx_binary
setting rx_device_key c = as_text c.rx_device
setting rx_channels_key c = as_text c.rx_channels
setting rx_sfs_key c = as_text c.rx_sfs
setting bw_key c = as_word c.bw
setting rx_ppm_key c = as_word c.rx_ppm
setting tx_freq_key c = as_word c.tx_freq
setting tx_sf_key c = as_word c.tx_sf
setting tx_cr_key c = as_word c.tx_cr
setting tx_ppm_key c = as_word c.tx_ppm
setting tx_vga_key c = as_word c.tx_vga
setting tx_amp_key c = as_flag c.tx_amp
setting tx_duty_key c = as_real c.tx_duty

module _ {Real : Type 0} (atof : Str → Real) where
  -- What a value's text means for a setting.
  abbrev pub parsed : ConfigKey → Str → Setting Real
  parsed name_key v = as_text v
  parsed identity_file_key v = as_text v
  parsed channels_file_key v = as_text v
  parsed contacts_file_key v = as_text v
  parsed prefs_file_key v = as_text v
  parsed path_hash_mode_key v = as_word (ato_bits 32 v)
  parsed lat_key v = as_place (some (atof v))
  parsed lon_key v = as_place (some (atof v))
  parsed port_key v = as_word (ato_bits 32 v)
  parsed advert_interval_min_key v = as_word (ato_bits 32 v)
  parsed log_rx_data_key v = as_flag (not (ato_bits 32 v == 0))
  parsed rx_binary_key v = as_text v
  parsed tx_binary_key v = as_text v
  parsed rx_device_key v = as_text v
  parsed rx_channels_key v = as_text v
  parsed rx_sfs_key v = as_text v
  parsed bw_key v = as_word (ato_bits 32 v)
  parsed rx_ppm_key v = as_word (ato_bits 32 v)
  parsed tx_freq_key v = as_word (ato_bits 32 v)
  parsed tx_sf_key v = as_word (ato_bits 32 v)
  parsed tx_cr_key v = as_word (ato_bits 32 v)
  parsed tx_ppm_key v = as_word (ato_bits 32 v)
  parsed tx_vga_key v = as_word (ato_bits 32 v)
  parsed tx_amp_key v = as_flag (not (ato_bits 32 v == 0))
  parsed tx_duty_key v = as_real (atof v)

  -- An assignment decides its own setting and no other.
  setting-assign :
      (j k : ConfigKey) (v : Str) (c : NodeConfig Real)
      → setting k (assign atof j v c) ≡ (if same_key j k then parsed k v else setting k c)
  unfolding assign
  setting-assign name_key name_key v c = refl
  setting-assign _ name_key v c = refl
  setting-assign _ _ v c = refl

  -- What a line of the file sets: its key and its value's text.
  abbrev pub parted : Option (Str × Str) → Option (ConfigKey × Str)
  parted none = none
  parted (some (before, after)) = elim (find_key (trim before) config_keys) [
    | none ↦ none
    | some key ↦ some (key, trim after)
  ]

  abbrev pub names_setting : Str → Option (ConfigKey × Str)
  names_setting raw =
      let line = trim raw in if starts_comment line then none else parted (split_at b'=' line)

  -- The value of the last line that names the key, in front of which `value` was the last.
  abbrev pub last_value : ConfigKey → List Str → Setting Real → Setting Real
  last_value k [] value = value
  last_value k (l ∷ ls) value = last_value k ls (elim (names_setting l) [
    | none ↦ value
    | some (j, v) ↦ (if same_key j k then parsed k v else value)
  ])

  setting-set_parted :
      (k : ConfigKey) (o : Option (Str × Str)) (c : NodeConfig Real)
      → setting k (set_parted atof o c) ≡ elim (parted o) [
        | none ↦ setting k c
        | some (j, v) ↦ (if same_key j k then parsed k v else setting k c)
      ]
  unfolding set_option
  setting-set_parted k none c = refl
  setting-set_parted k (some (before, after)) c =
      elim (Option-cases (find_key (trim before) config_keys)) [
        | inl e ↦ rw e
        | inr (j, e) ↦ rw e (setting-assign j k (trim after) c)
      ]

  setting-read_option :
      (k : ConfigKey) (l : Str) (c : NodeConfig Real)
      → setting k (read_option atof l c) ≡ elim (names_setting l) [
        | none ↦ setting k c
        | some (j, v) ↦ (if same_key j k then parsed k v else setting k c)
      ]
  unfolding read_option
  setting-read_option k l c = elim (Bool-cases (starts_comment (trim l))) [
    | inl e ↦ rw e
    | inr e ↦ rw e (setting-set_parted k (split_at b'=' (trim l)) c)
  ]

  setting-read_options :
      (k : ConfigKey) (ls : List Str) (c : NodeConfig Real)
      → setting k (read_options atof ls c) ≡ last_value k ls (setting k c)
  unfolding read_options
  setting-read_options k [] c = refl
  setting-read_options k (l ∷ ls) c =
      setting-read_options k ls (read_option atof l c)
      ∙ ap (last_value k ls) (setting-read_option k l c)

  -- Each setting of the loaded configuration is what the last line of the file that names it says,
  -- and its default where no line does.
  pub load_config-last_value :
      (k : ConfigKey) (ten : Real) (s : Str)
      → Option.map (setting k) (load_config atof ten (some s))
        ≡ some (last_value k (lines s) (setting k (default_config ten)))
  unfolding load_config
  load_config-last_value k ten s = ap some (setting-read_options k (lines s) (default_config ten))
