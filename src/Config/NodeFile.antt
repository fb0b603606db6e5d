-- ===== src/Config/NodeFile.antt =====
-- NodeConfig::load of sdr-node/src/node_config.cpp, and the struct of node_config.h. A double is a
-- value of a type that is a parameter, with the conversion of `atof` and the constant 10.0.
pub mod Last
use meshcore_open_sdr.Shared.{Bool, List, Option, [], false, none, not, some, true, ℕ, ◌∷◌}
use meshcore_open_sdr.Config.Channels.{split_at, starts_comment, trim}
use meshcore_open_sdr.Shared.Decimal.{lines}
use meshcore_open_sdr.Shared.Scan.{ato_bits}
use meshcore_open_sdr.Shared.Tests.{if◌then◌else◌, ◌==◌}
use meshcore_open_sdr.Shared.Text.{Str, codes, str_eq}

-- The words int32_t and uint32_t are bit patterns.
pub record NodeConfig (Real : Type 0) : Type 0 where
  pub name : Str
  pub identity_file : Str
  pub channels_file : Str
  pub contacts_file : Str
  pub prefs_file : Str
  pub path_hash_mode : ℕ
  pub lat : Option Real
  pub lon : Option Real
  pub port : ℕ
  pub advert_interval_min : ℕ
  pub log_rx_data : Bool
  pub rx_binary : Str
  pub tx_binary : Str
  pub rx_device : Str
  pub rx_channels : Str
  pub rx_sfs : Str
  pub bw : ℕ
  pub rx_ppm : ℕ
  pub tx_freq : ℕ
  pub tx_sf : ℕ
  pub tx_cr : ℕ
  pub tx_ppm : ℕ
  pub tx_vga : ℕ
  pub tx_amp : Bool
  pub tx_duty : Real

pub data ConfigKey : Type 0 where
  name_key identity_file_key channels_file_key contacts_file_key prefs_file_key : ConfigKey
  path_hash_mode_key lat_key lon_key port_key advert_interval_min_key : ConfigKey
  log_rx_data_key rx_binary_key tx_binary_key rx_device_key rx_channels_key : ConfigKey
  rx_sfs_key bw_key rx_ppm_key tx_freq_key tx_sf_key : ConfigKey
  tx_cr_key tx_ppm_key tx_vga_key tx_amp_key tx_duty_key : ConfigKey

-- The comparisons of the chain of conditions, in its order.
abbrev pub config_keys : List (Str × ConfigKey)
config_keys =
    (codes "name", name_key)
    ∷ (codes "identity_file", identity_file_key)
    ∷ (codes "channels_file", channels_file_key)
    ∷ (codes "contacts_file", contacts_file_key)
    ∷ (codes "prefs_file", prefs_file_key)
    ∷ (codes "path_hash_mode", path_hash_mode_key)
    ∷ (codes "lat", lat_key)
    ∷ (codes "lon", lon_key)
    ∷ (codes "port", port_key)
    ∷ (codes "advert_interval_min", advert_interval_min_key)
    ∷ (codes "log_rx_data", log_rx_data_key)
    ∷ (codes "rx_binary", rx_binary_key)
    ∷ (codes "tx_binary", tx_binary_key)
    ∷ (codes "rx_device", rx_device_key)
    ∷ (codes "rx_channels", rx_channels_key)
    ∷ (codes "rx_sfs", rx_sfs_key)
    ∷ (codes "bw", bw_key)
    ∷ (codes "rx_ppm", rx_ppm_key)
    ∷ (codes "tx_freq", tx_freq_key)
    ∷ (codes "tx_sf", tx_sf_key)
    ∷ (codes "tx_cr", tx_cr_key)
    ∷ (codes "tx_ppm", tx_ppm_key)
    ∷ (codes "tx_vga", tx_vga_key)
    ∷ (codes "tx_amp", tx_amp_key)
    ∷ (codes "tx_duty", tx_duty_key)
    ∷ []

unfoldable pub find_key : Str → List (Str × ConfigKey) → Option ConfigKey
unfolding str_eq
find_key k [] = none
find_key k ((name, key) ∷ table) = if str_eq k name then some key else find_key k table

abbrev pub default_config : {Real : Type 0} → Real → NodeConfig Real
default_config ten = record {
  name = codes "SDR Node";
  identity_file = codes "identity.key";
  channels_file = codes "channels.txt";
  contacts_file = codes "contacts.txt";
  prefs_file = codes "prefs.txt";
  path_hash_mode = 1;
  lat = none;
  lon = none;
  port = 5000;
  advert_interval_min = 240;
  log_rx_data = true;
  rx_binary = codes "lora_rx";
  tx_binary = codes "lora_tx";
  rx_device = [];
  rx_channels = codes "869618000";
  rx_sfs = codes "7,8";
  bw = 62500;
  rx_ppm = 0;
  tx_freq = 869618000;
  tx_sf = 7;
  tx_cr = 1;
  tx_ppm = 0;
  tx_vga = 30;
  tx_amp = false;
  tx_duty = ten;
}

module _ {Real : Type 0} (atof : Str → Real) where
  -- `c.<field> = …`
  unfoldable pub assign : ConfigKey → Str → NodeConfig Real → NodeConfig Real
  unfolding ato_bits
  assign name_key v c = record c { name = v }
  assign identity_file_key v c = record c { identity_file = v }
  assign channels_file_key v c = record c { channels_file = v }
  assign contacts_file_key v c = record c { contacts_file = v }
  assign prefs_file_key v c = record c { prefs_file = v }
  assign path_hash_mode_key v c = record c { path_hash_mode = ato_bits 32 v }
  assign lat_key v c = record c { lat = some (atof v) }
  assign lon_key v c = record c { lon = some (atof v) }
  assign port_key v c = record c { port = ato_bits 32 v }
  assign advert_interval_min_key v c = record c { advert_interval_min = ato_bits 32 v }
  assign log_rx_data_key v c = record c { log_rx_data = not (ato_bits 32 v == 0) }
  assign rx_binary_key v c = record c { rx_binary = v }
  assign tx_binary_key v c = record c { tx_binary = v }
  assign rx_device_key v c = record c { rx_device = v }
  assign rx_channels_key v c = record c { rx_channels = v }
  assign rx_sfs_key v c = record c { rx_sfs = v }
  assign bw_key v c = record c { bw = ato_bits 32 v }
  assign rx_ppm_key v c = record c { rx_ppm = ato_bits 32 v }
  assign tx_freq_key v c = record c { tx_freq = ato_bits 32 v }
  assign tx_sf_key v c = record c { tx_sf = ato_bits 32 v }
  assign tx_cr_key v c = record c { tx_cr = ato_bits 32 v }
  assign tx_ppm_key v c = record c { tx_ppm = ato_bits 32 v }
  assign tx_vga_key v c = record c { tx_vga = ato_bits 32 v }
  assign tx_amp_key v c = record c { tx_amp = not (ato_bits 32 v == 0) }
  assign tx_duty_key v c = record c { tx_duty = atof v }

  -- An unknown key is reported in the log and changes nothing.
  abbrev pub assign_found : Option ConfigKey → Str → NodeConfig Real → NodeConfig Real
  assign_found none v c = c
  assign_found (some key) v c = assign key v c

  unfoldable pub set_option : Str → Str → NodeConfig Real → NodeConfig Real
  set_option k v c = assign_found (find_key k config_keys) v c

  abbrev pub set_parted : Option (Str × Str) → NodeConfig Real → NodeConfig Real
  set_parted none c = c
  set_parted (some (before, after)) c = set_option (trim before) (trim after) c

  -- One line: blank lines, comments and lines with no sign are passed over.
  unfoldable pub read_option : Str → NodeConfig Real → NodeConfig Real
  read_option raw c =
      let line = trim raw in if starts_comment line then c else set_parted (split_at b'=' line) c

  unfoldable pub read_options : List Str → NodeConfig Real → NodeConfig Real
  read_options [] c = c
  read_options (l ∷ ls) c = read_options ls (read_option l c)

  -- `none` where the file cannot be opened, which is an error.
  unfoldable pub load_config : Real → Option Str → Option (NodeConfig Real)
  load_config ten none = none
  load_config ten (some s) = some (read_options (lines s) (default_config ten))
