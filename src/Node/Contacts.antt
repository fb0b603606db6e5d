-- ===== src/Node/Contacts.antt =====
-- The commands of sdr-node/src/node.cpp on channels, contacts and the message inbox.
use meshcore_open_sdr.Shared.{List, Option, [], none, some, ℕ, ◌&&◌, ◌++◌, ◌+◌, ◌-◌, ◌∷◌}
use meshcore_open_sdr.Library.{Library}
use meshcore_open_sdr.Node.Files.{persist_channels, persist_contacts}
use meshcore_open_sdr.Node.Frames.{c_field, contact_frame}
use meshcore_open_sdr.Node.Queues.{hex_of}
use meshcore_open_sdr.Node.State.{
  Ambient, ChannelDef, Contact, Node, Outcome, clock_u32, err_frame, new_contact, ok_frame, quiet,
  reply,
}
use meshcore_open_sdr.Shared.Lists.{get_or, length, replicate, set}
use meshcore_open_sdr.Shared.Map.{Map, erase, find, insert, nat_key, str_key}
use meshcore_open_sdr.Shared.Tests.{if◌then◌else◌, leb, ltb, ◌==◌}
use meshcore_open_sdr.Shared.Text.{Bytes, Str, is_empty, until_nul}
use meshcore_open_sdr.Wire.{get_u32, slice, u32}

abbrev pub max_channels : ℕ
max_channels = 8

-- `toLower(bytesToHex(f.data() + off, 32))`
abbrev pub key_at : Library → ℕ → Bytes → Str
key_at lib off f = hex_of lib (slice off 32 f)

abbrev pub no_channel : ChannelDef
no_channel = record { name = []; key_hex = [] }

-- The 16 bytes of a channel's key, or zeros where the text is not the hex of 16 bytes.
abbrev pub key_field : Bytes → Bytes
key_field key = if length key == 16 then key else replicate 16 0

-- CMD_GET_CHANNEL for an index; `none` where hexToBytes throws on the key.
unfoldable pub get_channel_at : Library → Node → ℕ → Option Outcome
unfolding c_field
get_channel_at lib n idx =
    let ch = get_or n.channels idx no_channel in
    if leb max_channels idx
    then some (reply n (err_frame 2))
    else if ltb idx (length n.channels)
    then elim (lib.hex_to_bytes ch.key_hex) [
      | none ↦ none
      | some key ↦ some (reply n ((18 ∷ idx ∷ []) ++ (c_field 32 31 ch.name ++ key_field key)))
    ]
    else some (reply n (18 ∷ idx ∷ replicate 48 0))

unfoldable pub get_channel : Library → Node → Bytes → Option Outcome
get_channel lib n f = get_channel_at lib n (if ltb 1 (length f) then get_or f 1 0 else 0)

-- `if (channels_.size() <= idx) channels_.resize(idx + 1)`
unfoldable pub grow : ℕ → List ChannelDef → List ChannelDef
grow n chs = chs ++ replicate (n - length chs) no_channel

-- CMD_SET_CHANNEL. An empty name frees the slot.
unfoldable pub set_channel : Library → Ambient → Node → Bytes → Outcome
unfolding grow until_nul
set_channel lib env n f =
    let idx = get_or f 1 0 in
    let name = until_nul (slice 2 32 f) in
    let key = if is_empty name then [] else hex_of lib (slice 34 16 f) in
    let ch : ChannelDef = record { name = name; key_hex = key } in
    if leb 50 (length f) && ltb idx max_channels
    then reply
        (persist_channels env (record n { channels = set (grow (idx + 1) n.channels) idx ch }))
        ok_frame
    else reply n (err_frame (if leb 2 (length f) && leb max_channels idx then 2 else 6))

-- CMD_SYNC_NEXT_MESSAGE
unfoldable pub sync_next_message : Node → Outcome
sync_next_message n = elim n.inbox [
  | [] ↦ reply n (10 ∷ [])
  | frame ∷ rest ↦ reply (record n { inbox = rest }) frame
]

-- The contacts changed after `since`, in the order of their keys.
unfoldable pub contacts_since : ℕ → Map Str Contact → List Bytes
unfolding contact_frame
contacts_since since [] = []
contacts_since since ((key, c) ∷ m) =
    let rest = contacts_since since m in
    if ltb since c.last_mod then contact_frame c 3 ∷ rest else rest

unfoldable pub newer : ℕ → ℕ → Contact → ℕ
newer since best c = if ltb since c.last_mod && ltb best c.last_mod then c.last_mod else best

unfoldable pub most_recent : ℕ → ℕ → Map Str Contact → ℕ
unfolding newer
most_recent since best [] = best
most_recent since best ((key, c) ∷ m) = most_recent since (newer since best c) m

-- CMD_GET_CONTACTS
unfoldable pub get_contacts : Node → Bytes → Outcome
unfolding get_u32 contacts_since most_recent
get_contacts n f =
    let since = if leb 5 (length f) then get_u32 f 1 else 0 in
    record {
      node = n;
      replies =
          (2 ∷ u32 (length n.contacts))
          ∷ (contacts_since since n.contacts ++ ((4 ∷ u32 (most_recent since 0 n.contacts)) ∷ []));
      pushes = [];
    }

abbrev pub without_path : Contact → Contact
without_path c = record c { out_path_len = 0xFF; out_path = [] }

-- CMD_RESET_PATH
unfoldable pub reset_path : Library → Ambient → Node → Bytes → Outcome
reset_path lib env n f =
    let key = key_at lib 1 f in
    if leb 33 (length f)
    then elim (find key n.contacts) [
      | none ↦ reply n ok_frame
      | some c ↦
          reply
            (persist_contacts lib env
              (record n { contacts = insert key (without_path c) n.contacts }))
            ok_frame
    ]
    else reply n ok_frame

-- CMD_REMOVE_CONTACT sends no reply and writes no file.
unfoldable pub remove_contact : Library → Node → Bytes → Outcome
remove_contact lib n f =
    if leb 33 (length f)
    then quiet (record n { contacts = erase (key_at lib 1 f) n.contacts })
    else quiet n

-- CMD_GET_ADVERT_PATH
unfoldable pub get_advert_path : Library → Node → Bytes → Outcome
get_advert_path lib n f =
    if ltb (length f) 34 then reply n (err_frame 6) else elim (find (key_at lib 2 f) n.contacts) [
      | none ↦ reply n (err_frame 2)
      | some c ↦
          if c.adv_path_len == 0xFF
          then reply n (err_frame 2)
          else reply n ((22 ∷ u32 c.adv_recv_time) ++ (c.adv_path_len ∷ c.adv_path))
    ]

-- CMD_GET_CONTACT_BY_KEY
unfoldable pub get_contact_by_key : Library → Node → Bytes → Outcome
get_contact_by_key lib n f =
    if ltb (length f) 33 then reply n (err_frame 6) else elim (find (key_at lib 1 f) n.contacts) [
      | none ↦ reply n (err_frame 2)
      | some c ↦ reply n (contact_frame c 3)
    ]

-- The contact that handleAddUpdateContact reads from a frame of 137 bytes or more, with the
-- cached secret of the contact that it replaces.
unfoldable pub contact_of_frame : Ambient → Bytes → Str → Contact
unfolding get_u32 until_nul
contact_of_frame env f secret = record new_contact {
  pub_key = slice 1 32 f;
  type = get_or f 33 0;
  name = until_nul (slice 100 32 f);
  last_advert = get_u32 f 132;
  last_mod = if leb 148 (length f) then get_u32 f 144 else clock_u32 env;
  lat = if leb 144 (length f) then get_u32 f 136 else 0;
  lon = if leb 144 (length f) then get_u32 f 140 else 0;
  secret_hex = secret;
}

abbrev pub secret_of : Option Contact → Str
secret_of none = []
secret_of (some c) = c.secret_hex

-- handleAddUpdateContact
unfoldable pub add_update_contact : Library → Ambient → Node → Bytes → Outcome
unfolding contact_of_frame
add_update_contact lib env n f =
    let key = key_at lib 1 f in
    let c = contact_of_frame env f (secret_of (find key n.contacts)) in
    if ltb (length f) 137
    then reply n (err_frame 6)
    else reply (persist_contacts lib env (record n { contacts = insert key c n.contacts })) ok_frame
