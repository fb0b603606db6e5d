-- ===== src/Node/Answers.antt =====
-- The branches of onRxPacket in sdr-node/src/node.cpp for what is addressed to this node: text
-- messages, responses, path returns and acknowledgements. `none` is an exception of hexToBytes.
use meshcore_open_sdr.Shared.{
  Bool, List, Option, [], false, none, not, some, true, ℕ, ◌%◌, ◌&&◌, ◌++◌, ◌+◌, ◌-◌, ◌/◌, ◌||◌,
  ◌∷◌,
}
use meshcore_open_sdr.Library.{Decoded, DecryptedText, Library, PayloadType, RouteType}
use meshcore_open_sdr.Node.Files.{persist_contacts}
use meshcore_open_sdr.Node.Hearing.{snr_byte, travelled}
use meshcore_open_sdr.Node.Queues.{enqueue_tx, hex_of, mark_seen, queue_for_app, with_secret}
use meshcore_open_sdr.Node.Responses.{max_frame, on_contact_response}
use meshcore_open_sdr.Node.Sending.{flood_packet, path_bytes_of}
use meshcore_open_sdr.Node.State.{
  Ambient, Contact, Node, Outcome, PendingAck, RxPacket, clock_u32, new_contact, push, pushed_first,
  quiet,
}
use meshcore_open_sdr.Shared.Lists.{drop, get_or, length, take, truncate}
use meshcore_open_sdr.Shared.Map.{Map, find, insert, nat_key, str_key}
use meshcore_open_sdr.Shared.Tests.{if◌then◌else◌, leb, ltb, ◌==◌, ◌>>=◌}
use meshcore_open_sdr.Shared.Text.{Bytes, Str, is_empty}
use meshcore_open_sdr.Wire.{get_u32, slice, u32}

-- A decryption is tried with the secret of each contact whose key begins with the source hash, in
-- the order of the keys, until one succeeds. The secrets computed on the way are cached.
module _ {ℓ} {A : Type ℓ} (lib : Library) (n : Node) (source : ℕ) (decrypt : Str → Option A) where
  unfoldable pub try_contacts : Map Str Contact → Map Str Contact × Option (Str × Contact × A)
  unfolding with_secret
  try_contacts [] = ([], none)
  try_contacts ((key, c) ∷ m) =
      let c' = with_secret lib n c in
      let later : Map Str Contact × Option (Str × Contact × A) = try_contacts m in
      if get_or c.pub_key 0 0 == source
      then elim (decrypt c'.secret_hex) [
        | none ↦ ((key, c') ∷ later.0, later.1)
        | some a ↦ ((key, c') ∷ m, some (key, c', a))
      ]
      else ((key, c) ∷ later.0, later.1)

-- `payload.size() < 20 || payload[0] != myPub[0]`
abbrev pub not_for_us : Node → Bytes → Bool
not_for_us n payload = ltb (length payload) 20 || not (get_or payload 0 0 == get_or n.id.my_pub 0 0)

abbrev pub contact_message : RxPacket → Decoded → Contact → DecryptedText → Bytes
contact_message pkt d c m = truncate max_frame (
    (16 ∷ snr_byte pkt ∷ 0 ∷ 0 ∷ take 6 c.pub_key)
    ++ ((d.path_length ∷ 0 ∷ []) ++ (u32 m.timestamp ++ (m.text ++ (0 ∷ [])))))

abbrev pub is_flood : RouteType → Bool
is_flood RouteType.flood = true
is_flood RouteType.transport_flood = true
is_flood RouteType.direct = false
is_flood RouteType.transport_direct = false

-- The six bytes of an acknowledgement.
abbrev pub ack_bytes : ℕ → DecryptedText → Ambient → Bytes
ack_bytes ack m env = u32 ack ++ (m.attempt ∷ env.random 0 ∷ [])

-- The plaintext of a path return: packed length, path, type of the extra, extra.
abbrev pub path_plain : ℕ × Bytes → ℕ → Bytes → Bytes
path_plain (len, path) extra_type extra = (len ∷ path) ++ (extra_type ∷ extra)

-- The packet that answers a text message: a path return with the acknowledgement where the
-- message flooded, else the acknowledgement alone.
unfoldable pub ack_packet : Library → Node → Decoded → Contact → ℕ × Bytes → Bytes → Option Bytes
ack_packet lib n d c path ack6 =
    let returned = flood_packet lib n PayloadType.path_return (
      get_or c.pub_key 0 0
      ∷ get_or n.id.my_pub 0 0
      ∷ lib.encrypt_then_mac c.secret_hex (path_plain path 3 ack6)) in
    let plain = flood_packet lib n PayloadType.ack ack6 in
    if is_flood d.route_type then (if is_empty c.secret_hex then none else returned) else plain

-- Both replies flood with an empty path: the payload follows the header and the path length.
unfoldable pub send_ack : Library → RxPacket → Option Bytes → Node → Node
send_ack lib pkt none n = n
send_ack lib pkt (some bytes) n =
    enqueue_tx (hex_of lib bytes) (mark_seen (hex_of lib (drop 2 bytes)) pkt.time n)

unfoldable pub accept_text :
    Library
    → Ambient
    → RxPacket
    → Decoded
    → Str
    → Contact
    → DecryptedText
    → ℕ × Bytes
    → Node
    → Outcome
unfolding send_ack queue_for_app
accept_text lib env pkt d key c m path n =
    let ack = lib.calc_ack_hash m.timestamp m.attempt m.text key in
    let queued = queue_for_app (contact_message pkt d c m) n in
    let packet = ack_packet lib queued.node d c path (ack_bytes ack m env) in
    record queued { node = persist_contacts lib env (send_ack lib pkt packet queued.node) }

-- The path is unpacked only where the message flooded.
abbrev pub return_path : Library → Decoded → Option (ℕ × Bytes)
return_path lib d = if is_flood d.route_type then travelled lib d else some (0, [])

abbrev pub heard_from : Ambient → Contact → Contact
heard_from env c = record c { last_mod = clock_u32 env }

unfoldable pub on_text_message :
    Library → Ambient → RxPacket → Decoded → Node → Bytes → Option Outcome
unfolding try_contacts travelled
on_text_message lib env pkt d n payload =
    let tried =
      try_contacts lib n (get_or payload 1 0) (λ s. lib.decrypt_text_message s payload)
        n.contacts in
    if not_for_us n payload then some (quiet n) else elim tried.1 [
      | none ↦ some (quiet (record n { contacts = tried.0 }))
      | some (key, c, m) ↦
          let n' : Node = record n { contacts = insert key (heard_from env c) tried.0 } in
          elim (m.txt_type == 0) [
            | false ↦ some (quiet n')
            | true ↦ return_path lib d >>= λ path. some (accept_text lib env pkt d key c m path n')
          ]
    ]

abbrev pub try_response : Library → Node → Bytes → Map Str Contact × Option (Str × Contact × Bytes)
try_response lib n payload =
    try_contacts lib n (get_or payload 1 0) (λ s. lib.mac_then_decrypt s (drop 2 payload))
      n.contacts

unfoldable pub on_response : Library → RxPacket → Node → Bytes → Outcome
unfolding try_contacts
on_response lib pkt n payload =
    let tried = try_response lib n payload in
    let n' : Node = record n { contacts = tried.0 } in
    if not_for_us n payload then quiet n else elim tried.1 [
      | none ↦ quiet n'
      | some (key, c, body) ↦ on_contact_response c body pkt.time n'
    ]

-- The first acknowledgement of the value that is waited for, and the others in their order.
unfoldable pub take_ack : ℕ → List PendingAck → Option (PendingAck × List PendingAck)
take_ack ack [] = none
take_ack ack (a ∷ rest) =
    let later : Option (PendingAck × List PendingAck) = elim (take_ack ack rest) [
      | none ↦ none
      | some (b, others) ↦ some (b, a ∷ others)
    ] in
    if a.ack == ack then some (a, rest) else later

-- PUSH_SEND_CONFIRMED: [0x82][ack 4][milliseconds 4]
abbrev pub confirmation : ℕ → ℕ → ℕ → Bytes
confirmation ack sent_at now = (0x82 ∷ u32 ack) ++ u32 ((now - sent_at) / 1000)

unfoldable pub confirm : ℕ → ℕ → Node → Outcome
unfolding take_ack
confirm ack now n = elim (take_ack ack n.pending_acks) [
  | none ↦ quiet n
  | some (a, rest) ↦ push (record n { pending_acks = rest }) (confirmation ack a.sent_at now)
]

unfoldable pub on_ack : RxPacket → Node → Bytes → Outcome
unfolding get_u32
on_ack pkt n payload =
    if ltb (length payload) 4 then quiet n else confirm (get_u32 payload 0) pkt.time n

-- A path return taken apart: `none` where the plaintext ends within the path.
pub record PathReturn : Type 0 where
  pub len : ℕ
  pub path : Bytes
  pub extra_type : ℕ
  pub extra : Bytes

unfoldable pub parse_path : Bytes → Option PathReturn
parse_path d =
    let len = get_or d 0 0 in
    let size = path_bytes_of len in
    if leb (length d) (1 + size)
    then none
    else some (record {
      len = len;
      path = slice 1 size d;
      extra_type = get_or d (1 + size) 0 % 16;
      extra = drop (2 + size) d;
    })

-- The route is learned, and PUSH_PATH_UPDATED tells the app.
unfoldable pub learn_path : Library → Ambient → Str → Contact → PathReturn → Node → Outcome
learn_path lib env key c p n =
    let c' : Contact = record c {
      out_path_len = p.len;
      out_path = p.path;
      last_mod = clock_u32 env;
    } in
    push (persist_contacts lib env (record n { contacts = insert key c' n.contacts }))
      (0x81 ∷ c.pub_key)

abbrev pub or_new : Option Contact → Contact
or_new none = new_contact
or_new (some c) = c

-- The extra of a path return: a response (1) or an acknowledgement (3).
unfoldable pub use_extra : Str → PathReturn → RxPacket → Node → Outcome
unfolding get_u32
use_extra key p pkt n =
    let from = or_new (find key n.contacts) in
    if p.extra_type == 1 && not (is_empty p.extra)
    then if is_empty from.pub_key then quiet n else on_contact_response from p.extra pkt.time n
    else if p.extra_type == 3 && leb 4 (length p.extra)
    then confirm (get_u32 p.extra 0) pkt.time n
    else quiet n

unfoldable pub accept_path : Library → Ambient → RxPacket → Str → Contact → Bytes → Node → Outcome
unfolding parse_path
accept_path lib env pkt key c plain n = elim (parse_path plain) [
  | none ↦ quiet n
  | some p ↦
      let learned = learn_path lib env key c p n in
      pushed_first learned.pushes (use_extra key p pkt learned.node)
]

unfoldable pub on_path : Library → Ambient → RxPacket → Node → Bytes → Outcome
unfolding try_contacts
on_path lib env pkt n payload =
    let tried = try_response lib n payload in
    let n' : Node = record n { contacts = tried.0 } in
    if not_for_us n payload then quiet n else elim tried.1 [
      | none ↦ quiet n'
      | some (key, c, plain) ↦ accept_path lib env pkt key c plain n'
    ]
