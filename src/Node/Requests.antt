-- ===== src/Node/Requests.antt =====
-- Encrypted requests to contacts, of sdr-node/src/node.cpp: sendContactRequest, handleAnonRequest
-- and handleRepeaterRequest, and the commands that end in them.
use meshcore_open_sdr.Shared.{
  Bool, Option, [], false, none, not, some, true, ℕ, ◌++◌, ◌+◌, ◌||◌, ◌∷◌,
}
use meshcore_open_sdr.Library.{Library, PayloadType}
use meshcore_open_sdr.Node.Contacts.{key_at}
use meshcore_open_sdr.Node.Files.{persist_contacts}
use meshcore_open_sdr.Node.Queues.{
  add_pending_req, cache_secret, enqueue_tx, hex_of, mark_seen, with_secret,
}
use meshcore_open_sdr.Node.Sending.{
  direct_packet, expect, flood_packet, is_flooded, request_payload, send_to_contact, sent_frame,
}
use meshcore_open_sdr.Node.State.{
  Ambient, Contact, Kind, Node, Outcome, clock_u32, clock_us, err_frame, new_contact, reply,
}
use meshcore_open_sdr.Shared.Lists.{drop, get_or, length, take, truncate}
use meshcore_open_sdr.Shared.Map.{find, nat_key, str_key}
use meshcore_open_sdr.Shared.Tests.{if◌then◌else◌, ltb, ◌==◌}
use meshcore_open_sdr.Shared.Text.{Bytes, Str, until_nul}
use meshcore_open_sdr.Wire.{slice, u32}

abbrev pub random_four : Ambient → Bytes
random_four env = env.random 0 ∷ env.random 1 ∷ env.random 2 ∷ env.random 3 ∷ []

-- sendContactRequest, once the contact is found.
unfoldable pub request_to : Library → Ambient → Node → Str → Contact → Bytes → Kind → Bool → Outcome
unfolding add_pending_req
request_to lib env n key c body kind force_flood =
    let n' = cache_secret lib key c n in
    let flooded = force_flood || is_flooded c in
    let payload = request_payload lib n c (clock_u32 env) body in
    elim (if flooded
      then flood_packet lib n PayloadType.request payload
      else direct_packet lib PayloadType.request payload c.out_path c.out_path_len) [
        | none ↦ reply n' (err_frame 4)
        | some bytes ↦
            reply
              (expect kind c env
                (mark_seen (hex_of lib payload) (clock_us env) (enqueue_tx (hex_of lib bytes) n')))
              (sent_frame flooded (clock_u32 env) (if flooded then 30000 else 12000))
      ]

unfoldable pub send_contact_request :
    Library → Ambient → Node → Bytes → ℕ → Bytes → Kind → Bool → Outcome
send_contact_request lib env n f key_off body kind force_flood =
    let key = key_at lib key_off f in
    if ltb (length f) (key_off + 32) then reply n (err_frame 6) else elim (find key n.contacts) [
      | none ↦ reply n (err_frame 2)
      | some c ↦ request_to lib env n key c body kind force_flood
    ]

-- CMD_SEND_TELEMETRY_REQ: four bytes ask for our own telemetry.
unfoldable pub send_telemetry_req : Library → Ambient → Node → Bytes → Outcome
send_telemetry_req lib env n f =
    if length f == 4
    then reply n (0x8B ∷ 0 ∷ take 6 n.id.my_pub)
    else if ltb (length f) 36
    then reply n (err_frame 6)
    else send_contact_request lib env n f 4 ((3 ∷ 0 ∷ 0 ∷ 0 ∷ 0 ∷ []) ++ random_four env)
        Kind.telemetry false

-- CMD_SEND_BINARY_REQ
unfoldable pub send_binary_req : Library → Ambient → Node → Bytes → Outcome
send_binary_req lib env n f =
    if ltb (length f) 34
    then reply n (err_frame 6)
    else send_contact_request lib env n f 1 (drop 33 f) Kind.binary false

-- CMD_SEND_PATH_DISCOVERY_REQ: a telemetry request that always floods.
unfoldable pub send_path_discovery_req : Library → Ambient → Node → Bytes → Outcome
send_path_discovery_req lib env n f =
    if ltb (length f) 34 || not (get_or f 1 0 == 0)
    then reply n (err_frame 6)
    else send_contact_request lib env n f 2 ((3 ∷ 254 ∷ 0 ∷ 0 ∷ 0 ∷ []) ++ random_four env)
        Kind.path_discovery true

-- handleRepeaterRequest from the contact on. A login carries our public key and a password of at
-- most 15 bytes, any other kind asks for the status.
abbrev pub repeater_payload : Library → Ambient → Node → Bytes → Contact → Kind → Bytes
repeater_payload lib env n f c Kind.login =
    get_or c.pub_key 0 0
    ∷ (n.id.my_pub
        ++ lib.encrypt_then_mac (with_secret lib n c).secret_hex
            (u32 (clock_u32 env) ++ truncate 15 (until_nul (drop 33 f))))
repeater_payload lib env n f c kind =
    request_payload lib n c (clock_u32 env) ((1 ∷ 0 ∷ 0 ∷ 0 ∷ 0 ∷ []) ++ random_four env)

abbrev pub repeater_type : Kind → PayloadType
repeater_type Kind.login = PayloadType.anon_request
repeater_type kind = PayloadType.request

unfoldable pub repeater_request_to :
    Library → Ambient → Node → Bytes → Str → Contact → Kind → Outcome
unfolding until_nul add_pending_req
repeater_request_to lib env n f key c kind =
    let n' = cache_secret lib key c n in
    elim (send_to_contact lib env c (repeater_type kind) (repeater_payload lib env n f c kind) n') [
      | none ↦ reply n' (err_frame 4)
      | some n'' ↦ reply (expect kind c env n'') (sent_frame (is_flooded c) 0 20000)
    ]

unfoldable pub repeater_request : Library → Ambient → Node → Bytes → Kind → Outcome
repeater_request lib env n f kind =
    let key = key_at lib 1 f in
    if ltb (length f) 33 then reply n (err_frame 6) else elim (find key n.contacts) [
      | none ↦ reply n (err_frame 2)
      | some c ↦ repeater_request_to lib env n f key c kind
    ]

-- The contact that handleAnonRequest adds for a key that it does not know: zero-hop direct.
abbrev pub anon_contact : Ambient → Bytes → Contact
anon_contact env pub_key = record new_contact {
  pub_key = pub_key;
  type = 0;
  out_path_len = 0;
  last_mod = clock_u32 env;
}

abbrev pub or_anon : Ambient → Bytes → Option Contact → Contact
or_anon env f none = anon_contact env (slice 1 32 f)
or_anon env f (some c) = c

abbrev pub anon_payload : Library → Ambient → Node → Bytes → Contact → Bytes
anon_payload lib env n f c =
    get_or c.pub_key 0 0
    ∷ (n.id.my_pub
        ++ lib.encrypt_then_mac (with_secret lib n c).secret_hex (u32 (clock_u32 env) ++ drop 33 f))

-- Always direct: over a learned path, or with none.
abbrev pub anon_packet : Library → Contact → Bytes → Option Bytes
anon_packet lib c payload =
    if c.out_path_len == 0xFF
    then direct_packet lib PayloadType.anon_request payload [] 0
    else direct_packet lib PayloadType.anon_request payload c.out_path c.out_path_len

-- handleAnonRequest
unfoldable pub handle_anon_request : Library → Ambient → Node → Bytes → Outcome
unfolding add_pending_req
handle_anon_request lib env n f =
    let key = key_at lib 1 f in
    let c = or_anon env f (find key n.contacts) in
    let n' = cache_secret lib key c n in
    let payload = anon_payload lib env n f c in
    if ltb (length f) 34 then reply n (err_frame 6) else elim (anon_packet lib c payload) [
      | none ↦ reply n' (err_frame 4)
      | some bytes ↦
          reply
            (persist_contacts lib env (
              expect Kind.anon c env
                (enqueue_tx (hex_of lib bytes) (mark_seen (hex_of lib payload) (clock_us env) n'))))
            (sent_frame false (clock_u32 env) 20000)
    ]
