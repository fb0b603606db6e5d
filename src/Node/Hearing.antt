-- ===== src/Node/Hearing.antt =====
-- The branches of onRxPacket in sdr-node/src/node.cpp for what is addressed to everybody: channel
-- messages and data, adverts, control packets and traces. `none` is an exception of hexToBytes.
use meshcore_open_sdr.Shared.{
  Bool, List, Option, [], false, none, not, some, ℕ, ◌%◌, ◌&&◌, ◌*◌, ◌++◌, ◌+◌, ◌-◌, ◌/◌, ◌^◌, ◌||◌,
  ◌∷◌,
}
use meshcore_open_sdr.Library.{Advert, Decoded, GroupMessage, Library}
use meshcore_open_sdr.Node.Files.{persist_contacts}
use meshcore_open_sdr.Node.Frames.{contact_frame}
use meshcore_open_sdr.Node.Queues.{hex_of, queue_for_app}
use meshcore_open_sdr.Node.Responses.{max_frame}
use meshcore_open_sdr.Node.State.{
  Ambient, ChannelDef, Contact, Node, Outcome, RxPacket, clock_u32, new_contact, push, quiet,
}
use meshcore_open_sdr.Shared.Lists.{drop, get_or, length, take, truncate}
use meshcore_open_sdr.Shared.Map.{erase, find, insert, nat_key, str_key}
use meshcore_open_sdr.Shared.Tests.{if◌then◌else◌, ltb, ◌==◌, ◌>>=◌}
use meshcore_open_sdr.Shared.Text.{Bytes, Str, is_empty, str_eq, to_lower}
use meshcore_open_sdr.Wire.{clamp_byte, get_u32, rssi_of, slice, snr_quarters, u32}

-- The first channel, with its index from `i` on, whose hash is the given one.
unfoldable pub find_channel : Library → Str → ℕ → List ChannelDef → Option (ℕ × Str)
unfolding to_lower
find_channel lib hash i [] = none
find_channel lib hash i (ch ∷ chs) =
    let later = find_channel lib hash (i + 1) chs in
    if not (is_empty ch.key_hex) && str_eq (to_lower (lib.calculate_channel_hash ch.key_hex)) hash
    then some (i, ch.key_hex)
    else later

abbrev pub snr_byte : RxPacket → ℕ
snr_byte pkt = clamp_byte (snr_quarters pkt.snr)

abbrev pub rssi_byte : RxPacket → ℕ
rssi_byte pkt = clamp_byte (rssi_of pkt.snr)

-- `*res.sender + ": " + res.message`
abbrev message_line : GroupMessage → Str
message_line m = elim m.sender [ none ↦ m.message | some name ↦ name ++ (b':' ∷ b' ' ∷ m.message) ]

abbrev pub channel_message : ℕ → ℕ → GroupMessage → Bytes
channel_message idx path_length m =
    truncate max_frame
      ((8 ∷ idx % 256 ∷ path_length ∷ 0 ∷ []) ++ (u32 m.timestamp ++ (message_line m ++ (0 ∷ []))))

unfoldable pub on_group_text : Library → Decoded → Node → Bytes → Outcome
unfolding find_channel queue_for_app
on_group_text lib d n payload =
    if ltb (length payload) 4
    then quiet n
    else elim (find_channel lib (hex_of lib (take 1 payload)) 0 n.channels) [
      | none ↦ quiet n
      | some (idx, key) ↦
          elim (lib.decrypt_group_text (lib.bytes_to_hex (drop 3 payload))
            (lib.bytes_to_hex (slice 1 2 payload)) key) [
              | none ↦ quiet n
              | some m ↦ queue_for_app (channel_message idx d.path_length m) n
            ]
    ]

-- The data of a decrypted blob is as long as its third byte says.
abbrev pub channel_data_message : ℕ → ℕ → RxPacket → Bytes → Bytes
channel_data_message idx path_length pkt plain = truncate max_frame (
    (27 ∷ snr_byte pkt ∷ 0 ∷ 0 ∷ idx % 256 ∷ path_length ∷ [])
    ++ ((get_or plain 0 0 ∷ get_or plain 1 0 ∷ get_or plain 2 0 ∷ [])
        ++ take (get_or plain 2 0) (drop 3 plain)))

unfoldable pub on_group_data : Library → RxPacket → Decoded → Node → Bytes → Outcome
unfolding find_channel queue_for_app
on_group_data lib pkt d n payload =
    if ltb (length payload) 4
    then quiet n
    else elim (find_channel lib (hex_of lib (take 1 payload)) 0 n.channels) [
      | none ↦ quiet n
      | some (idx, key) ↦
          elim (lib.decrypt_raw (lib.bytes_to_hex (drop 3 payload))
            (lib.bytes_to_hex (slice 1 2 payload)) key) [
              | none ↦ quiet n
              | some plain ↦
                  if ltb (length plain) 3 || ltb (length plain - 3) (get_or plain 2 0)
                  then quiet n
                  else queue_for_app (channel_data_message idx d.path_length pkt plain) n
            ]
    ]

-- The hop hashes of a path as bytes, and the packed length: count and width, of the last hop.
unfoldable pub hop_bytes : Library → List Str → Option Bytes
hop_bytes lib [] = some []
hop_bytes lib (h ∷ hs) = do here ← lib.hex_to_bytes h; rest ← hop_bytes lib hs; some (here ++ rest)

unfoldable pub last_width : ℕ → List Str → ℕ
last_width w [] = w
last_width w (h ∷ hs) = last_width (length h / 2) hs

abbrev pub packed_length : ℕ → List Str → ℕ
packed_length count hops = count % 64 + (last_width 1 hops + 3) % 4 * 64

-- The path that a packet travelled: packed length and bytes; no path is zero hops.
unfoldable pub travelled : Library → Decoded → Option (ℕ × Bytes)
unfolding hop_bytes last_width
travelled lib d = elim d.path [
  | none ↦ some (0, [])
  | some hops ↦ do bytes ← hop_bytes lib hops; some (packed_length d.path_length hops, bytes)
]

abbrev name_or_key : Advert → Str
name_or_key a = elim a.name [ none ↦ take 8 a.public_key | some name ↦ name ]

abbrev or_unknown : Option ℕ → ℕ
or_unknown none = 0
or_unknown (some w) = w

-- The contact that an advert describes. The secret and the route of a known contact are kept.
unfoldable pub contact_of_advert :
    Ambient → RxPacket → Advert → Bytes → ℕ × Bytes → Option Contact → Contact
contact_of_advert env pkt a pub_key (len, path) known =
    let old : Contact = elim known [ none ↦ new_contact | some c ↦ c ] in
    record {
      pub_key = pub_key;
      type = a.device_role % 256;
      name = name_or_key a;
      last_advert = a.timestamp;
      last_mod = clock_u32 env;
      lat = or_unknown a.latitude;
      lon = or_unknown a.longitude;
      secret_hex = old.secret_hex;
      adv_path_len = len;
      adv_path = path;
      adv_recv_time = pkt.time / 1_000_000 % 2 ^ 32;
      out_path_len = old.out_path_len;
      out_path = old.out_path;
    }

abbrev is_signed : Option Bool → Bool
is_signed none = false
is_signed (some b) = b

unfoldable pub accept_advert :
    Library → Ambient → RxPacket → Advert → Bytes → ℕ × Bytes → Node → Outcome
unfolding contact_of_advert contact_frame to_lower
accept_advert lib env pkt a pub_key path n =
    let key = to_lower a.public_key in
    let c = contact_of_advert env pkt a pub_key path (find key n.contacts) in
    push (persist_contacts lib env (record n { contacts = insert key c n.contacts }))
      (contact_frame c 0x8A)

-- Adverts with no valid signature, and our own, are ignored.
unfoldable pub on_advert : Library → Ambient → RxPacket → Decoded → Node → Option Outcome
unfolding to_lower
on_advert lib env pkt d n = elim (lib.decode_verified_advert pkt.hex) [
  | none ↦ some (quiet n)
  | some a ↦
      let accepted : Option Outcome = (do
        pub_key ← lib.hex_to_bytes a.public_key
        path ← travelled lib d
        some (accept_advert lib env pkt a pub_key path n)) in
      if not (is_signed a.signature_valid)
        || str_eq (to_lower a.public_key) (to_lower n.id.public_key_hex)
      then some (quiet n)
      else accepted
]

-- Control packets of the discovery subtypes, from direct neighbours only.
unfoldable pub on_control : RxPacket → Decoded → Node → Bytes → Outcome
on_control pkt d n payload =
    if is_empty payload || ltb (get_or payload 0 0) 128
    then quiet n
    else if not (d.path_length == 0)
    then quiet n
    else push n (
        truncate max_frame
          ((0x8E ∷ snr_byte pkt ∷ rssi_byte pkt ∷ d.path_length % 256 ∷ []) ++ payload))

abbrev pub or_no_hops : Option (List Str) → List Str
or_no_hops none = []
or_no_hops (some hops) = hops

-- A trace has come back when the hops' signal bytes, one a hop, cover its route.
unfoldable pub on_trace : Library → RxPacket → Decoded → Node → Bytes → Option Outcome
unfolding get_u32
on_trace lib pkt d n payload =
    let flags = get_or payload 8 0 in
    let hash_bytes = length payload - 9 in
    let returned : Option Outcome = (do
      snrs ← hop_bytes lib (or_no_hops d.path)
      some (
          push (record n { sent_traces = erase (get_u32 payload 0) n.sent_traces })
            (truncate max_frame (
              (0x89 ∷ 0 ∷ hash_bytes % 256 ∷ flags ∷ take 8 payload)
              ++ (drop 9 payload ++ (snrs ++ (snr_byte pkt ∷ []))))))) in
    if ltb (length payload) 9
    then some (quiet n)
    else if ltb (d.path_length * 2 ^ (flags % 4)) hash_bytes
    then some (quiet n)
    else returned
