-- ===== src/Library.antt =====
-- What sdr-node takes from the library meshcore-cpp-decoder, which is not part of the repository:
-- the types that its calls return, as far as node.cpp reads them, and the calls as a record of
-- functions that every definition using them takes as an argument.
use meshcore_open_sdr.Shared.{Bool, List, Option, [], some, true, ℕ, ◌*◌, ◌≡◌}
use meshcore_open_sdr.Config.Channels.{all_hex}
use meshcore_open_sdr.Shared.Lists.{All, length}
use meshcore_open_sdr.Shared.Text.{Bytes, Str, to_lower}
use meshcore_open_sdr.Wire.{IsByte}

pub data RouteType : Type 0 where
  transport_flood flood direct transport_direct : RouteType

pub data PayloadType : Type 0 where
  request response text_message ack advert group_text group_data anon_request : PayloadType
  path_return trace control other_payload : PayloadType

-- `MeshCorePacketDecoder::decode`: `path` holds one hex text for each hop.
pub record Decoded : Type 0 where
  pub is_valid : Bool
  pub payload_raw : Str
  pub payload_type : PayloadType
  pub route_type : RouteType
  pub path : Option (List Str)
  pub path_length : ℕ

-- `PeerCrypto::decryptTextMessage`
pub record DecryptedText : Type 0 where
  pub timestamp : ℕ
  pub attempt : ℕ
  pub txt_type : ℕ
  pub text : Str

-- `ChannelCrypto::decryptGroupTextMessage`, where it succeeds
pub record GroupMessage : Type 0 where
  pub timestamp : ℕ
  pub sender : Option Str
  pub message : Str

-- The advert that `decodeWithVerification` finds in a packet. A coordinate is the int32_t of
-- millionths of a degree to which the code converts it.
pub record Advert : Type 0 where
  pub public_key : Str
  pub signature_valid : Option Bool
  pub device_role : ℕ
  pub name : Option Str
  pub timestamp : ℕ
  pub latitude : Option ℕ
  pub longitude : Option ℕ

-- A call that reports failure returns `none`; `hex_to_bytes` is `none` where hexToBytes throws.
pub record Library : Type 0 where
  pub bytes_to_hex : Bytes → Str
  pub hex_to_bytes : Str → Option Bytes
  -- private key, public key
  pub key_exchange : Str → Str → Str
  pub encrypt_then_mac : Str → Bytes → Bytes
  pub mac_then_decrypt : Str → Bytes → Option Bytes
  -- secret, destination hash, source hash, timestamp, attempt, text
  pub build_text_message : Str → ℕ → ℕ → ℕ → ℕ → Str → Bytes
  pub decrypt_text_message : Str → Bytes → Option DecryptedText
  -- timestamp, attempt, text, public key
  pub calc_ack_hash : ℕ → ℕ → Str → Str → ℕ
  -- route, payload type, payload; path and hash size where the call gives them
  pub build_packet : RouteType → PayloadType → Bytes → Option (Bytes × ℕ) → Option Bytes
  -- channel key, sender name, text, timestamp, attempt
  pub build_group_text : Str → Str → Str → ℕ → ℕ → Option Bytes
  -- channel key, data type, data
  pub build_group_data : Str → ℕ → Bytes → Option Bytes
  -- private key, public key, timestamp, name, position
  pub build_advert : Str → Str → ℕ → Str → Option (ℕ × ℕ) → Option Bytes
  pub calculate_channel_hash : Str → Str
  -- ciphertext, MAC, channel key
  pub decrypt_group_text : Str → Str → Str → Option GroupMessage
  pub decrypt_raw : Str → Str → Str → Option Bytes
  pub decode : Str → Decoded
  pub decode_verified_advert : Str → Option Advert
  -- Arithmetic of doubles, which stand as bit patterns: `(int32_t)w / 1e6` of a word, and
  -- `(int32_t)(x * 1e6)` of a double, as a word.
  pub degrees : ℕ → ℕ
  pub millionths : ℕ → ℕ

-- That hexToBytes reads what bytesToHex writes, in lower case too.
pub record HexInverts (lib : Library) : Type 0 where
  pub read_back :
      (b : Bytes) → All IsByte b → lib.hex_to_bytes (to_lower (lib.bytes_to_hex b)) ≡ some b
  pub read_empty : lib.hex_to_bytes [] ≡ some []

-- That bytesToHex writes two hex digits for each byte, and that hexToBytes reads them.
pub record HexDigits (lib : Library) : Type 0 where
  pub digits : (b : Bytes) → All IsByte b → all_hex (lib.bytes_to_hex b) ≡ true
  pub two_each : (b : Bytes) → length (lib.bytes_to_hex b) ≡ 2 * length b
  pub reads : (b : Bytes) → All IsByte b → lib.hex_to_bytes (lib.bytes_to_hex b) ≡ some b
