-- ===== src/Daemon.antt =====
-- main of sdr-node/src/main.cpp up to the point where the server listens: the command line, the
-- configuration, the identity, the radio's settings, the node, and the plan of the adverts.
pub mod Again
use meshcore_open_sdr.Shared.{
  Bool, List, Option, [], false, none, some, true, ℕ, ◌&&◌, ◌^◌, ◌||◌, ◌∷◌,
}
use meshcore_open_sdr.Config.IdentityFile.{
  IdentityError, IdentityResult, Loaded, NodeIdentity, err, load_or_create, ok,
}
use meshcore_open_sdr.Config.NodeFile.{NodeConfig, load_config}
use meshcore_open_sdr.Library.{Library}
use meshcore_open_sdr.Node.Start.{settings_of, start}
use meshcore_open_sdr.Node.State.{Identity, Node}
use meshcore_open_sdr.Radio.{RadioConfig}
use meshcore_open_sdr.Shared.Tests.{if◌then◌else◌, ltb}
use meshcore_open_sdr.Shared.Text.{Bytes, Str, codes, str_eq}

-- The files by their names; `none` for one that cannot be opened for reading.
abbrev pub FileSystem : Type 0
FileSystem = Str → Option Str

abbrev pub write_file : Str → Option Str → FileSystem → FileSystem
write_file name contents fs other = if str_eq other name then contents else fs other

-- What the daemon takes from outside: the library and the floating-point numbers, with 10.0 and the
-- bit pattern of a double.
pub record Outside (Real : Type 0) : Type 0 where
  pub lib : Library
  pub derive : Str → Option Str
  pub atof : Str → Real
  pub ten : Real
  pub pattern : Real → ℕ

-- What one start meets: the clock, the bytes of RAND_bytes, and whether the identity file can be
-- written.
pub record Start : Type 0 where
  pub now : ℕ
  pub random : Option Bytes
  pub writable : Bool

-- The loop over argv: the path of the configuration, and whether to advertise; `none` prints the
-- usage.
unfoldable pub parse_args : Str → Bool → List Str → Option (Str × Bool)
unfolding str_eq
parse_args path advertise [] = some (path, advertise)
parse_args path advertise (x ∷ []) = if str_eq x (codes "-a") then some (path, true) else none
parse_args path advertise (x ∷ y ∷ rest) =
    let with_path = parse_args y advertise rest in
    let advertising = parse_args path true (y ∷ rest) in
    if str_eq x (codes "-c") then with_path else if str_eq x (codes "-a") then advertising else none

-- The fields that main copies; the gain control keeps its default.
unfoldable pub radio_config : {Real : Type 0} → NodeConfig Real → RadioConfig Real
radio_config cfg = record {
  rx_binary = cfg.rx_binary;
  rx_device = cfg.rx_device;
  rx_channels = cfg.rx_channels;
  rx_sfs = cfg.rx_sfs;
  bw = cfg.bw;
  rx_ppm = cfg.rx_ppm;
  rx_agc = true;
  tx_binary = cfg.tx_binary;
  tx_freq = cfg.tx_freq;
  tx_sf = cfg.tx_sf;
  tx_cr = cfg.tx_cr;
  tx_ppm = cfg.tx_ppm;
  tx_vga = cfg.tx_vga;
  tx_amp = cfg.tx_amp;
  tx_duty = cfg.tx_duty;
}

-- The thread of the adverts: one after five seconds, and then one after each so many minutes.
pub record Adverts : Type 0 where
  pub first : Option ℕ
  pub every : Option ℕ

abbrev pub is_positive : ℕ → Bool
is_positive w = ltb 0 w && ltb w (2 ^ 31)

unfoldable pub adverts : Bool → ℕ → Option Adverts
adverts advertise minutes =
    if advertise || is_positive minutes
    then some (record {
      first = if advertise then some 5 else none;
      every = if is_positive minutes then some minutes else none;
    })
    else none

pub record Running (Real : Type 0) : Type 0 where
  pub node : Node
  pub radio : RadioConfig Real
  pub port : ℕ
  pub adverts : Option Adverts
  pub files : FileSystem

-- `main` returns 1 in the first three cases.
pub data Boot (Real : Type 0) : Type 0 where
  usage : Boot Real
  no_config : Boot Real
  no_identity : IdentityError → Boot Real
  up : Running Real → Boot Real

abbrev bytes_or_empty : Option Bytes → Bytes
bytes_or_empty none = []
bytes_or_empty (some b) = b

abbrev pub identity_of : Library → NodeIdentity → Identity
identity_of lib id = record {
  private_key_hex = id.private_key_hex;
  public_key_hex = id.public_key_hex;
  my_pub = bytes_or_empty (lib.hex_to_bytes id.public_key_hex);
}

module _ {Real : Type 0} (o : Outside Real) (s : Start) where
  abbrev pub node_of : NodeConfig Real → NodeIdentity → FileSystem → Node
  node_of cfg id fs =
      start o.lib (settings_of o.pattern cfg) cfg.path_hash_mode (identity_of o.lib id)
        (record {
          rx_channels = cfg.rx_channels;
          bw = cfg.bw;
          tx_freq = cfg.tx_freq;
          tx_sf = cfg.tx_sf;
          tx_cr = cfg.tx_cr;
          restarts = 0;
        })
        s.now
        (record {
          channels = fs cfg.channels_file;
          contacts = fs cfg.contacts_file;
          prefs = fs cfg.prefs_file;
        })

  abbrev pub running_with : NodeConfig Real → Bool → FileSystem → NodeIdentity → Running Real
  running_with cfg advertise fs id = record {
    node = node_of cfg id fs;
    radio = radio_config cfg;
    port = cfg.port;
    adverts = adverts advertise cfg.advert_interval_min;
    files = fs;
  }

  abbrev pub boot_with : NodeConfig Real → Bool → FileSystem → IdentityResult → Boot Real
  boot_with cfg advertise fs (err e) = no_identity e
  boot_with cfg advertise fs (ok id) = up (running_with cfg advertise fs id)

  abbrev pub loaded_identity : NodeConfig Real → FileSystem → Loaded
  loaded_identity cfg fs =
      load_or_create o.derive o.lib.bytes_to_hex s.writable s.random (fs cfg.identity_file)

  abbrev pub files_after : NodeConfig Real → FileSystem → FileSystem
  files_after cfg fs = write_file cfg.identity_file (loaded_identity cfg fs).file fs

  -- The identity first, whose file may be written, and then the rest.
  abbrev pub boot_configured : Bool → FileSystem → Option (NodeConfig Real) → Boot Real
  boot_configured advertise fs none = no_config
  boot_configured advertise fs (some cfg) =
      boot_with cfg advertise (files_after cfg fs) (loaded_identity cfg fs).result

  abbrev pub boot_args : FileSystem → Option (Str × Bool) → Boot Real
  boot_args fs none = usage
  boot_args fs (some (path, advertise)) =
      boot_configured advertise fs (load_config o.atof o.ten (fs path))

  unfoldable pub boot : FileSystem → List Str → Boot Real
  boot fs args = boot_args fs (parse_args (codes "sdr-node.conf") false args)
