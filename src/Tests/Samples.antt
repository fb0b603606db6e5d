-- ===== src/Tests/Samples.antt =====
-- A library, a node and packets to try the definitions on. The library encrypts nothing.
use meshcore_open_sdr.Shared.{
  Option, [], arith, false, none, some, true, ℕ, ◌%◌, ◌*◌, ◌+◌, ◌-◌, ◌/◌, ◌∷◌,
}
use meshcore_open_sdr.Library.{Decoded, DecryptedText, Library, PayloadType, RouteType}
use meshcore_open_sdr.Node.Invariant.{IsSound}
use meshcore_open_sdr.Node.State.{Ambient, Contact, Kind, Node, RxPacket, new_contact}
use meshcore_open_sdr.Shared.Int.{pos}
use meshcore_open_sdr.Shared.Lists.{drop, length, replicate, take}
use meshcore_open_sdr.Shared.Tests.{if◌then◌else◌, ltb}
use meshcore_open_sdr.Shared.Text.{Bytes, Str, codes, is_empty}

abbrev pub digit : ℕ → ℕ
digit d = if ltb d 10 then 48 + d else 87 + d

abbrev pub digit_value : ℕ → ℕ
digit_value c = if ltb c 58 then c - 48 else if ltb c 71 then c - 55 else c - 87

abbrev pub to_hex : Bytes → Str
to_hex [] = []
to_hex (b ∷ bs) = digit (b / 16) ∷ digit (b % 16) ∷ to_hex bs

-- An odd number of digits is an error.
abbrev pub from_hex : Str → Option Bytes
from_hex [] = some []
from_hex (a ∷ []) = none
from_hex (a ∷ b ∷ s) = elim (from_hex s) [
  | none ↦ none
  | some bs ↦ some ((digit_value a * 16 + digit_value b) ∷ bs)
]

abbrev pub sample_decode : Str → Decoded
sample_decode hex = record {
  is_valid = true;
  payload_raw = drop 4 hex;
  payload_type = PayloadType.ack;
  route_type = RouteType.flood;
  path = none;
  path_length = 0;
}

abbrev pub plain_text : DecryptedText
plain_text = record { timestamp = 5; attempt = 0; txt_type = 0; text = codes "hi" }

abbrev pub sample_lib : Library
sample_lib = record {
  bytes_to_hex = to_hex;
  hex_to_bytes = from_hex;
  key_exchange = λ mine theirs. theirs;
  encrypt_then_mac = λ secret body. body;
  mac_then_decrypt = λ secret body. some body;
  build_text_message = λ secret dest src stamp attempt text. dest ∷ src ∷ text;
  decrypt_text_message = λ secret body. if is_empty secret then none else some plain_text;
  calc_ack_hash = λ stamp attempt text key. stamp + attempt + length text;
  build_packet = λ route kind payload path. some (9 ∷ 0 ∷ payload);
  build_group_text = λ key name text stamp attempt. some text;
  build_group_data = λ key type body. some body;
  build_advert = λ mine theirs stamp name position. some name;
  calculate_channel_hash = λ key. take 2 key;
  decrypt_group_text = λ body mac key. none;
  decrypt_raw = λ body mac key. none;
  decode = sample_decode;
  decode_verified_advert = λ hex. none;
  degrees = λ w. w;
  millionths = λ x. x;
}

abbrev pub sample_env : Ambient
sample_env = record {
  clock = 1000;
  random = λ i. i;
  writable = false;
  build_date = codes "Jan  1 2026";
}

abbrev pub alice : Contact
alice = record new_contact {
  pub_key = replicate 32 7;
  name = codes "Alice";
  last_mod = 900;
  secret_hex = codes "aa";
}

abbrev pub alice_key : Str
alice_key = to_hex (replicate 32 7)

abbrev pub sample_node : Node
sample_node = record {
  cfg = record {
    name = codes "base";
    lat = none;
    lon = none;
    log_rx_data = false;
    bw = 62500;
    tx_freq = 869618000;
    tx_sf = 8;
    tx_cr = 4;
  };
  id = record {
    private_key_hex = codes "01";
    public_key_hex = to_hex (replicate 32 3);
    my_pub = replicate 32 3;
  };
  radio = record {
    rx_channels = codes "869618000";
    bw = 62500;
    tx_freq = 869618000;
    tx_sf = 8;
    tx_cr = 4;
    restarts = 0;
  };
  channels = record { name = codes "Public"; key_hex = to_hex (replicate 16 1) } ∷ [];
  contacts = (alice_key, alice) ∷ [];
  inbox = (16 ∷ 1 ∷ []) ∷ (17 ∷ 2 ∷ []) ∷ [];
  seen = (codes "aa", 990_000_000) ∷ [];
  pending_acks = record { ack = 7; sent_at = 999_000_000 } ∷ [];
  pending_reqs =
      record { kind = Kind.status; pub_key = replicate 32 7; tag = 9; sent_at = 999_000_000 } ∷ [];
  sent_traces = [];
  app = true;
  last_snr = pos 0;
  tx_air = some (record { num = 0; den = 1 });
  rx_air = some (record { num = 0; den = 1 });
  start_time = 10;
  path_hash_mode = 0;
  scope_name = [];
  scope_key = [];
  tx_queue = [];
  files = record { channels = []; contacts = []; prefs = [] };
}

abbrev pub sample_packet : RxPacket
sample_packet = record {
  hex = codes "0d0007000000";
  freq = 869618000;
  sf = 8;
  bw = 62500;
  snr = pos 250;
  cfo = pos 0;
  time = 1_000_000_000;
}

pub sample_node-IsSound : IsSound sample_node
sample_node-IsSound = record {
  inbox_bound = omega arith;
  acks_bound = omega arith;
  reqs_bound = omega arith;
  traces_bound = omega arith;
  contacts_sorted = (tt, tt);
  seen_sorted = (tt, tt);
  traces_sorted = tt;
}
