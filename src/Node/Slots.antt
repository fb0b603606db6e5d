-- ===== src/Node/Slots.antt =====
-- CMD_SET_CHANNEL and CMD_GET_CHANNEL of sdr-node/src/node.cpp: the slot that is set, and the
-- others.
use meshcore_open_sdr.Shared.{
  Bool, List, Option, [], ap, arith, false, refl, some, true, ℕ, ◌++◌, ◌+◌, ◌-◌, ◌<◌, ◌∙◌, ◌∷◌, ◌≡◌,
  ◌≢◌, ◌≤◌,
}
use meshcore_open_sdr.Library.{HexInverts, Library}
use meshcore_open_sdr.Node.Contacts.{
  get_channel, get_channel_at, grow, key_field, no_channel, set_channel,
}
use meshcore_open_sdr.Node.Files.{persist_channels}
use meshcore_open_sdr.Node.Frames.{c_field}
use meshcore_open_sdr.Node.Queues.{hex_of}
use meshcore_open_sdr.Node.State.{Ambient, ChannelDef, Node, Outcome, reply}
use meshcore_open_sdr.Shared.Lists.{
  All, All-drop, All-take, drop, get_or, get_or-fill, get_or-set_other, get_or-set_same, length,
  length-append, length-drop, length-replicate, length-set, length-take, replicate, set,
}
use meshcore_open_sdr.Shared.Scan.{bytes}
use meshcore_open_sdr.Shared.Tests.{if◌then◌else◌, leb, ltb, ◌==◌}
use meshcore_open_sdr.Shared.Text.{Bytes, is_empty, until_nul}
use meshcore_open_sdr.Wire.{IsByte, slice}

-- What CMD_GET_CHANNEL answers for a slot that was set: index, name field, key.
abbrev pub channel_reply : ℕ → Bytes → Bytes
channel_reply idx f =
    let name = until_nul (slice 2 32 f) in
    (18 ∷ idx ∷ [])
    ++ (c_field 32 31 name ++ (if is_empty name then replicate 16 0 else slice 34 16 f))

length-grow : (k : ℕ) (chs : List ChannelDef) → k ≤ length (grow k chs)
unfolding grow
length-grow k chs = omega (
  arith,
  length-append chs (replicate (k - length chs) no_channel),
  length-replicate (k - length chs) no_channel,
)

-- The channels that CMD_SET_CHANNEL leaves.
abbrev slot_of : Library → Bytes → ChannelDef
slot_of lib f =
    let name = until_nul (slice 2 32 f) in
    record { name = name; key_hex = if is_empty name then [] else hex_of lib (slice 34 16 f) }

abbrev slots_after : Library → Node → Bytes → List ChannelDef
slots_after lib n f = let idx = get_or f 1 0 in set (grow (idx + 1) n.channels) idx (slot_of lib f)

set_channel-slots :
    (lib : Library) (env : Ambient) (n : Node) (f : Bytes)
    → 50 ≤ length f
    → get_or f 1 0 < 8
    → (set_channel lib env n f).node.channels ≡ slots_after lib n f
unfolding set_channel persist_channels
set_channel-slots lib env n f h k = ground arith

module _ (lib : Library) (m : Node) (key : Bytes) (idx : ℕ) (ch : ChannelDef) (k : idx < 8)
    (within : idx < length m.channels) (at : get_or m.channels idx no_channel ≡ ch)
    (hex : lib.hex_to_bytes ch.key_hex ≡ some key) where
  abbrev answer : Option Outcome
  answer = some (reply m ((18 ∷ idx ∷ []) ++ (c_field 32 31 ch.name ++ key_field key)))

  get_channel_at_lem : get_channel_at lib m idx ≡ answer
  unfolding get_channel_at
  get_channel_at_lem =
      let e2 : leb 8 idx ≡ false = ground arith in
      let e3 : ltb idx (length m.channels) ≡ true = ground arith in
      let e4 : lib.hex_to_bytes (get_or m.channels idx no_channel).key_hex ≡ some key =
        rw (at, hex) in
      rw (e2, e3, e4)
        (ap (λ c. some (reply m ((18 ∷ idx ∷ []) ++ (c_field 32 31 c.name ++ key_field key)))) at)

  get_channel_lem : (g : Bytes) → 2 ≤ length g → get_or g 1 0 ≡ idx → get_channel lib m g ≡ answer
  unfolding get_channel
  get_channel_lem g h e =
      let e1 : (if ltb 1 (length g) then get_or g 1 0 else 0) ≡ idx = ground arith in
      ap (get_channel_at lib m) e1 ∙ get_channel_at_lem

-- The key of a slot reads back, an empty one too.
slot_key :
    (lib : Library) (f : Bytes) (empty : Bool)
    → HexInverts lib
    → All IsByte f
    → lib.hex_to_bytes (if empty then [] else hex_of lib (slice 34 16 f))
      ≡ some (if empty then [] else slice 34 16 f)
unfolding hex_of
slot_key lib f true law bytes = law.read_empty
slot_key lib f false law bytes =
    law.read_back (slice 34 16 f) (All-take _ 16 _ (All-drop _ 34 f bytes))

key_field-slot :
    (f : Bytes) (empty : Bool)
    → 50 ≤ length f
    → key_field (if empty then [] else slice 34 16 f)
      ≡ (if empty then replicate 16 0 else slice 34 16 f)
key_field-slot f true h = refl
key_field-slot f false h =
    let e : length (slice 34 16 f) ≡ 16 =
      omega (arith, length-take 16 (drop 34 f), length-drop 34 f) in
    let e' : (length (slice 34 16 f) == 16) ≡ true = ground arith in rw e'

-- CMD_GET_CHANNEL for the index of an accepted CMD_SET_CHANNEL answers what was set there: of the
-- name what stands before the first NUL and within the first 31 bytes (a name of 32 bytes is
-- stored whole and answered without its last), and the key, or a key of zeros where the name is
-- empty.
pub get_channel-set_channel :
    (lib : Library) (env : Ambient) (n : Node) (f g : Bytes)
    → HexInverts lib
    → All IsByte f
    → 50 ≤ length f
    → get_or f 1 0 < 8
    → 2 ≤ length g
    → get_or g 1 0 ≡ get_or f 1 0
    → get_channel lib (set_channel lib env n f).node g
      ≡ some (reply (set_channel lib env n f).node (channel_reply (get_or f 1 0) f))
unfolding get_channel
get_channel-set_channel lib env n f g law bytes h k h' same =
    let idx = get_or f 1 0 in
    let name = until_nul (slice 2 32 f) in
    let slots = set_channel-slots lib env n f h k in
    let full = length-grow (idx + 1) n.channels in
    let within : idx < length (slots_after lib n f) =
      omega (arith, length-set (grow (idx + 1) n.channels) idx _, full) in
    get_channel_lem lib (set_channel lib env n f).node (if is_empty name then [] else slice 34 16 f)
      idx (slot_of lib f) k (rw slots within)
      (rw
        (slots, get_or-set_same (grow (idx + 1) n.channels) idx _ no_channel (omega (arith, full))))
      (slot_key lib f (is_empty name) law bytes) g h' same
    ∙ rw (key_field-slot f (is_empty name) h)

-- Setting a channel leaves what every other slot holds.
pub set_channel-other :
    (lib : Library) (env : Ambient) (n : Node) (f : Bytes) (j : ℕ)
    → 50 ≤ length f
    → get_or f 1 0 < 8
    → get_or f 1 0 ≢ j
    → get_or (set_channel lib env n f).node.channels j no_channel ≡ get_or n.channels j no_channel
unfolding grow
set_channel-other lib env n f j h k other =
    let idx = get_or f 1 0 in
    rw (
      set_channel-slots lib env n f h k,
      get_or-set_other (grow (idx + 1) n.channels) idx j _ no_channel other,
      get_or-fill n.channels (idx + 1 - length n.channels) j no_channel,
    )
