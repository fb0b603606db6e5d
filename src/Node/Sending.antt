-- ===== src/Node/Sending.antt =====
-- Messages and adverts that the app sends into the mesh: handleSendChannelText,
-- handleSendDirectText with sendToContact, and sendSelfAdvert, in sdr-node/src/node.cpp.
use meshcore_open_sdr.Shared.{
  Bool, Option, [], none, not, some, ℕ, ◌%◌, ◌&&◌, ◌*◌, ◌++◌, ◌+◌, ◌/◌, ◌||◌, ◌∷◌,
}
use meshcore_open_sdr.Library.{Library, PayloadType, RouteType}
use meshcore_open_sdr.Node.Contacts.{no_channel}
use meshcore_open_sdr.Node.Queues.{
  add_pending_ack, add_pending_req, cache_secret, enqueue_tx, hex_of, mark_seen, with_secret,
}
use meshcore_open_sdr.Node.State.{
  Ambient, Contact, Kind, Node, Outcome, Settings, clock_u32, clock_us, err_frame, ok_frame, reply,
}
use meshcore_open_sdr.Shared.Lists.{drop, get_or, length, take}
use meshcore_open_sdr.Shared.Map.{Map}
use meshcore_open_sdr.Shared.Tests.{if◌then◌else◌, leb, ltb, ◌==◌}
use meshcore_open_sdr.Shared.Text.{Bytes, Str, is_empty, str_eq, until_nul}
use meshcore_open_sdr.Wire.{get_u32, slice, u32}

-- floodHashSize()
abbrev pub flood_hash_size : Node → ℕ
flood_hash_size n = (n.path_hash_mode + 1) % 256

-- `((len >> 6) & 3) + 1` and `(len & 63) * (((len >> 6) & 3) + 1)` of a packed path length.
abbrev pub hash_size_of : ℕ → ℕ
hash_size_of len = len / 64 % 4 + 1

abbrev pub path_bytes_of : ℕ → ℕ
path_bytes_of len = len % 64 * hash_size_of len

-- The packet of a payload that floods, or goes along a path.
abbrev pub flood_packet : Library → Node → PayloadType → Bytes → Option Bytes
flood_packet lib n kind payload =
    lib.build_packet RouteType.flood kind payload (some ([], flood_hash_size n))

abbrev pub direct_packet : Library → PayloadType → Bytes → Bytes → ℕ → Option Bytes
direct_packet lib kind payload path len =
    lib.build_packet RouteType.direct kind payload (some (path, hash_size_of len))

-- Direct over a learned path, also an empty one; flood where no path is known.
abbrev pub routed_packet : Library → Node → Contact → PayloadType → Bytes → Option Bytes
routed_packet lib n c kind payload =
    if c.out_path_len == 0xFF
    then flood_packet lib n kind payload
    else direct_packet lib kind payload c.out_path c.out_path_len

-- The first contact, in the order of the keys, whose public key begins with the six bytes.
unfoldable pub find_by_prefix : Bytes → Map Str Contact → Option (Str × Contact)
find_by_prefix prefix [] = none
find_by_prefix prefix ((key, c) ∷ m) =
    if str_eq (take 6 c.pub_key) prefix then some (key, c) else find_by_prefix prefix m

-- RESP_SENT: [6][flag][tag or ack 4][timeout 4]
abbrev pub sent_frame : Bool → ℕ → ℕ → Bytes
sent_frame flooded tag timeout = (6 ∷ (if flooded then 1 else 0) ∷ []) ++ (u32 tag ++ u32 timeout)

abbrev pub is_flooded : Contact → Bool
is_flooded c = c.out_path_len == 0xFF

-- sendToContact: `none` where no packet can be built. Its flood gives no hash size.
unfoldable pub send_to_contact :
    Library → Ambient → Contact → PayloadType → Bytes → Node → Option Node
send_to_contact lib env c kind payload n =
    let packet =
      if is_flooded c
      then lib.build_packet RouteType.flood kind payload none
      else direct_packet lib kind payload c.out_path c.out_path_len in
    elim packet [
      | none ↦ none
      | some bytes ↦
          some (enqueue_tx (hex_of lib bytes) (mark_seen (hex_of lib payload) (clock_us env) n))
    ]

-- handleSendChannelText. The node puts its name before the text.
unfoldable pub send_channel_text : Library → Ambient → Node → Bytes → Outcome
unfolding until_nul
send_channel_text lib env n f =
    let idx = get_or f 2 0 in
    let text = until_nul (drop 7 f) in
    let ch = get_or n.channels idx no_channel in
    if ltb (length f) 8
    then reply n (err_frame 4)
    else if leb (length n.channels) idx || is_empty ch.key_hex
    then reply n (err_frame 2)
    else elim (lib.build_group_text ch.key_hex n.cfg.name text (clock_u32 env) 0) [
      | none ↦ reply n (err_frame 4)
      | some payload ↦ elim (flood_packet lib n PayloadType.group_text payload) [
        | none ↦ reply n (err_frame 4)
        | some bytes ↦
            reply
              (enqueue_tx (hex_of lib bytes)
                (mark_seen (hex_of lib payload) (clock_u32 env * 1_000_000) n))
              ok_frame
      ]
    ]

-- The text message of handleSendDirectText, once its recipient is found.
unfoldable pub send_text_to : Library → Ambient → Node → Bytes → Str × Contact → Outcome
unfolding get_u32 until_nul
send_text_to lib env n f (key, c) =
    let text = until_nul (drop 13 f) in
    let secret = (with_secret lib n c).secret_hex in
    let n' = cache_secret lib key c n in
    let payload =
      lib.build_text_message secret (get_or c.pub_key 0 0) (get_or n.id.my_pub 0 0) (get_u32 f 3)
        (get_or f 2 0) text in
    let ack = lib.calc_ack_hash (get_u32 f 3) (get_or f 2 0) text n.id.public_key_hex in
    elim (routed_packet lib n c PayloadType.text_message payload) [
      | none ↦ reply n' (err_frame 4)
      | some bytes ↦
          reply
            (enqueue_tx (hex_of lib bytes) (
              add_pending_ack (record { ack = ack; sent_at = clock_us env })
                (mark_seen (hex_of lib payload) (clock_us env) n')))
            (sent_frame (is_flooded c) ack (if is_flooded c then 15000 else 8000))
    ]

-- A request's payload: [dest hash][source hash][mac and ciphertext of tag and body].
abbrev pub request_payload : Library → Node → Contact → ℕ → Bytes → Bytes
request_payload lib n c tag body =
    get_or c.pub_key 0 0
    ∷ get_or n.id.my_pub 0 0
    ∷ lib.encrypt_then_mac (with_secret lib n c).secret_hex (u32 tag ++ body)

abbrev pub expect : Kind → Contact → Ambient → Node → Node
expect kind c env n =
    add_pending_req
      (record { kind = kind; pub_key = c.pub_key; tag = clock_u32 env; sent_at = clock_us env }) n

-- The CLI command of handleSendDirectText: no ACK is expected, so the reply names ACK 0.
unfoldable pub send_cli_to : Library → Ambient → Node → Bytes → Str × Contact → Outcome
unfolding until_nul add_pending_req
send_cli_to lib env n f (key, c) =
    let n' = cache_secret lib key c n in
    let payload = request_payload lib n c (clock_u32 env) (until_nul (drop 13 f)) in
    elim (send_to_contact lib env c PayloadType.request payload n') [
      | none ↦ reply n' (err_frame 4)
      | some n'' ↦ reply (expect Kind.cli c env n'') (sent_frame (is_flooded c) 0 20000)
    ]

-- handleSendDirectText: [2][txt_type][attempt][timestamp 4][prefix 6][text]
unfoldable pub send_direct_text : Library → Ambient → Node → Bytes → Outcome
unfolding find_by_prefix
send_direct_text lib env n f =
    let txt_type = get_or f 1 0 in
    let target = find_by_prefix (slice 7 6 f) n.contacts in
    if ltb (length f) 14
    then reply n (err_frame 6)
    else if txt_type == 1
    then elim target [ none ↦ reply n (err_frame 2) | some e ↦ send_cli_to lib env n f e ]
    else if txt_type == 0
    then elim target [ none ↦ reply n (err_frame 2) | some e ↦ send_text_to lib env n f e ]
    else reply n (err_frame 1)

-- sendSelfAdvert
abbrev pub position : Settings → Option (ℕ × ℕ)
position cfg = elim cfg.lat [
  | none ↦ none
  | some lat ↦ elim cfg.lon [ none ↦ none | some lon ↦ some (lat, lon) ]
]

unfoldable pub send_self_advert : Library → Ambient → Bool → Node → Node
send_self_advert lib env flooding n =
    let route = if flooding then RouteType.flood else RouteType.direct in
    let advert =
      lib.build_advert n.id.private_key_hex n.id.public_key_hex (clock_u32 env) n.cfg.name
        (position n.cfg) in
    elim advert [
      | none ↦ n
      | some payload ↦
          elim (lib.build_packet route PayloadType.advert payload (some ([], flood_hash_size n))) [
            | none ↦ n
            | some bytes ↦
                enqueue_tx (hex_of lib bytes) (mark_seen (hex_of lib payload) (clock_us env) n)
          ]
    ]

unfoldable pub self_advert_command : Library → Ambient → Node → Bytes → Outcome
self_advert_command lib env n f =
    reply (send_self_advert lib env (ltb 1 (length f) && not (get_or f 1 0 == 0)) n) ok_frame
