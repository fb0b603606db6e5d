-- ===== src/Node/Start.antt =====
-- The constructor of Node in sdr-node/src/node.cpp: a node begins with what its files hold, and
-- with nothing queued, heard or awaited.
pub mod Again
pub mod Durable
use meshcore_open_sdr.Shared.{Option, [], false, none, some, ℕ}
use meshcore_open_sdr.Config.Channels.{load_channels}
use meshcore_open_sdr.Config.NodeFile.{NodeConfig}
use meshcore_open_sdr.Library.{Library}
use meshcore_open_sdr.Node.Loading.{load_contacts_file, load_prefs}
use meshcore_open_sdr.Node.State.{Identity, Node, RadioState, Settings}
use meshcore_open_sdr.Shared.Int.{pos}
use meshcore_open_sdr.Shared.Text.{Str}

-- The files as they are found; `none` where one cannot be opened.
pub record Disk : Type 0 where
  pub channels : Option Str
  pub contacts : Option Str
  pub prefs : Option Str

abbrev text_or_empty : Option Str → Str
text_or_empty none = []
text_or_empty (some s) = s

-- The settings that a running node uses. A coordinate is the bit pattern of a double.
abbrev pub settings_of : {Real : Type 0} → (Real → ℕ) → NodeConfig Real → Settings
settings_of pattern c = record {
  name = c.name;
  lat = elim (c.lat) [ none ↦ none | some x ↦ some (pattern x) ];
  lon = elim (c.lon) [ none ↦ none | some x ↦ some (pattern x) ];
  log_rx_data = c.log_rx_data;
  bw = c.bw;
  tx_freq = c.tx_freq;
  tx_sf = c.tx_sf;
  tx_cr = c.tx_cr;
}

-- `now` is the `time(nullptr)` of the start.
unfoldable pub start : Library → Settings → ℕ → Identity → RadioState → ℕ → Disk → Node
start lib cfg mode id radio now disk =
    let prefs = load_prefs lib mode disk.prefs in
    record {
      cfg = cfg;
      id = id;
      radio = radio;
      channels = load_channels disk.channels;
      contacts = load_contacts_file lib disk.contacts;
      inbox = [];
      seen = [];
      pending_acks = [];
      pending_reqs = [];
      sent_traces = [];
      app = false;
      last_snr = pos 0;
      tx_air = some (record { num = 0; den = 1 });
      rx_air = some (record { num = 0; den = 1 });
      start_time = now;
      path_hash_mode = prefs.path_hash_mode;
      scope_name = prefs.scope_name;
      scope_key = prefs.scope_key;
      tx_queue = [];
      files = record {
        channels = text_or_empty disk.channels;
        contacts = text_or_empty disk.contacts;
        prefs = text_or_empty disk.prefs;
      };
    }
