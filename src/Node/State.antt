-- ===== src/Node/State.antt =====
-- The data of sdr-node/src/node.h, and of node_config.h and radio_sdr.h as far as a Node holds it.
use meshcore_open_sdr.Shared.{Bool, List, Option, [], ℕ, ◌%◌, ◌*◌, ◌++◌, ◌^◌, ◌∷◌}
use meshcore_open_sdr.Shared.Int.{ℤ}
use meshcore_open_sdr.Shared.Map.{Map}
use meshcore_open_sdr.Shared.Tests.{if◌then◌else◌}
use meshcore_open_sdr.Shared.Text.{Bytes, Str}

pub record ChannelDef : Type 0 where
  pub name : Str
  pub key_hex : Str

-- `lat`, `lon`, `last_advert`, `last_mod` and the like are the bit patterns of 32-bit fields.
pub record Contact : Type 0 where
  pub pub_key : Bytes
  pub type : ℕ
  pub name : Str
  pub last_advert : ℕ
  pub last_mod : ℕ
  pub lat : ℕ
  pub lon : ℕ
  pub secret_hex : Str
  pub adv_path_len : ℕ
  pub adv_path : Bytes
  pub adv_recv_time : ℕ
  pub out_path_len : ℕ
  pub out_path : Bytes

abbrev pub new_contact : Contact
new_contact = record {
  pub_key = [];
  type = 1;
  name = [];
  last_advert = 0;
  last_mod = 0;
  lat = 0;
  lon = 0;
  secret_hex = [];
  adv_path_len = 0xFF;
  adv_path = [];
  adv_recv_time = 0;
  out_path_len = 0xFF;
  out_path = [];
}

-- A time that the source keeps as a double, in seconds, is a number of microseconds here.
pub record PendingAck : Type 0 where
  pub ack : ℕ
  pub sent_at : ℕ

pub data Kind : Type 0 where
  login status cli anon telemetry binary path_discovery : Kind

pub record PendingReq : Type 0 where
  pub kind : Kind
  pub pub_key : Bytes
  pub tag : ℕ
  pub sent_at : ℕ

-- The settings of NodeConfig that a running node reads or writes; `lat` and `lon` are the bit patterns
-- of doubles.
pub record Settings : Type 0 where
  pub name : Str
  pub lat : Option ℕ
  pub lon : Option ℕ
  pub log_rx_data : Bool
  pub bw : ℕ
  pub tx_freq : ℕ
  pub tx_sf : ℕ
  pub tx_cr : ℕ

-- `my_pub` is `hexToBytes(publicKeyHex)`, which the code computes anew at each use.
pub record Identity : Type 0 where
  pub private_key_hex : Str
  pub public_key_hex : Str
  pub my_pub : Bytes

-- The part of RadioConfig that a node changes, and how often it had the receiver restarted.
pub record RadioState : Type 0 where
  pub rx_channels : Str
  pub bw : ℕ
  pub tx_freq : ℕ
  pub tx_sf : ℕ
  pub tx_cr : ℕ
  pub restarts : ℕ

-- Seconds of airtime as a fraction; `none` is an infinite or undefined double.
pub record Fraction : Type 0 where
  pub num : ℕ
  pub den : ℕ

abbrev pub Airtime : Type 0
Airtime = Option Fraction

-- What the node's files hold.
pub record Files : Type 0 where
  pub channels : Str
  pub contacts : Str
  pub prefs : Str

pub record Node : Type 0 where
  pub cfg : Settings
  pub id : Identity
  pub radio : RadioState
  pub channels : List ChannelDef
  pub contacts : Map Str Contact
  pub inbox : List Bytes
  pub seen : Map Str ℕ
  pub pending_acks : List PendingAck
  pub pending_reqs : List PendingReq
  pub sent_traces : Map ℕ ℕ
  -- whether an app is connected: `appSender_` holds a function
  pub app : Bool
  pub last_snr : ℤ
  pub tx_air : Airtime
  pub rx_air : Airtime
  pub start_time : ℕ
  pub path_hash_mode : ℕ
  pub scope_name : Str
  pub scope_key : Bytes
  pub tx_queue : List Str
  pub files : Files

-- What one call meets outside: the clock in seconds, which stands still during the call, the
-- bytes that `rand() & 0xFF` gives in turn, and whether a file can be opened for writing; with
-- them the compiler's `__DATE__`.
pub record Ambient : Type 0 where
  pub clock : ℕ
  pub random : ℕ → ℕ
  pub writable : Bool
  pub build_date : Str

-- The outcome of a handler: the node after it, the frames for the command's sender and those for
-- `appSender_`, each in the order in which they went out.
pub record Outcome : Type 0 where
  pub node : Node
  pub replies : List Bytes
  pub pushes : List Bytes

-- `(uint32_t)time(nullptr)` and `(double)time(nullptr)`
abbrev pub clock_u32 : Ambient → ℕ
clock_u32 env = env.clock % 2 ^ 32

abbrev pub clock_us : Ambient → ℕ
clock_us env = env.clock * 1_000_000

-- RxPacket of radio_sdr.h: hundredths of a decibel, and a time in microseconds.
pub record RxPacket : Type 0 where
  pub hex : Str
  pub freq : ℕ
  pub sf : ℕ
  pub bw : ℕ
  pub snr : ℤ
  pub cfo : ℤ
  pub time : ℕ

-- What an earlier part of a call pushed goes out before what the later part does.
abbrev pub pushed_first : List Bytes → Outcome → Outcome
pushed_first frames o = record o { pushes = frames ++ o.pushes }

abbrev pub reply : Node → Bytes → Outcome
reply n f = record { node = n; replies = f ∷ []; pushes = [] }

abbrev pub quiet : Node → Outcome
quiet n = record { node = n; replies = []; pushes = [] }

-- `if (sender) sender(frame)`
abbrev pub push : Node → Bytes → Outcome
push n f = record { node = n; replies = []; pushes = if n.app then f ∷ [] else [] }

-- `send({RESP_OK})` and `send({RESP_ERR, code})`
abbrev pub ok_frame : Bytes
ok_frame = 0 ∷ []

abbrev pub err_frame : ℕ → Bytes
err_frame e = 1 ∷ e ∷ []
