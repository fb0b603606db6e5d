-- ===== src/Config/Channels/RoundTrip.antt =====
-- saveChannels and loadChannels of sdr-node/src/node_config.cpp against each other.
use meshcore_open_sdr.Shared.{
  List, [], ap, arith, false, inl, inr, none, refl, some, sym, true, ℕ, ◌++◌, ◌∙◌, ◌∷◌, ◌≡◌, ◌≢◌,
  ◌≤◌,
}
use meshcore_open_sdr.Config.Channels.{
  channel_lines, is_space, keep_valid, load_channels, parse_channel, parse_channels, save_channels,
  split_at, starts_comment, trim, trim_left, trim_right, valid_channel,
}
use meshcore_open_sdr.Node.State.{ChannelDef}
use meshcore_open_sdr.Shared.Decimal.{lines}
use meshcore_open_sdr.Shared.Lists.{All, get_or, length}
use meshcore_open_sdr.Shared.Tests.{Bool-cases, ◌==◌}
use meshcore_open_sdr.Shared.Text.{Str, is_empty, until_nul}
use mathlib.Core.List.{append_assoc}

-- A byte that a line of the file can hold in a field: no NUL, no newline, no comma.
abbrev pub IsPlain : ℕ → Type 0
IsPlain c = (c ≢ 0) × (c ≢ 10) × (c ≢ 44)

-- A channel whose line is read back: bytes that a field can hold, no blanks at the ends, no name
-- that starts like a comment, and a key that loadChannels accepts.
pub record IsWritable (ch : ChannelDef) : Type 0 where
  pub name_plain : All IsPlain ch.name
  pub key_plain : All IsPlain ch.key_hex
  pub name_left : trim_left ch.name ≡ ch.name
  pub name_right : trim_right ch.name ≡ ch.name
  pub key_left : trim_left ch.key_hex ≡ ch.key_hex
  pub key_right : trim_right ch.key_hex ≡ ch.key_hex
  pub no_comment : get_or ch.name 0 0 ≢ 35
  pub valid : valid_channel ch ≡ true

plain-until_nul : (s : Str) → All IsPlain s → until_nul s ≡ s
unfolding until_nul
plain-until_nul [] h = refl
plain-until_nul (c ∷ s) h =
    let e : (c == 0) ≡ false = ground (arith, h.0.0) in rw e (ap (◌∷◌ c) (plain-until_nul s h.1))

length-trim_left : (s : Str) → length (trim_left s) ≤ length s
unfolding trim_left
length-trim_left [] = omega arith
length-trim_left (c ∷ s) = ground (arith, length-trim_left s)

no_space : (c : ℕ) (s : Str) → trim_left (c ∷ s) ≡ c ∷ s → is_space c ≡ false
unfolding trim_left
no_space c s h = elim (Bool-cases (is_space c)) [
  | inl e ↦
      let same : trim_left s ≡ c ∷ s = rw e at h in
      absurd (omega (arith, length-trim_left s, ap length same))
  | inr e ↦ e
]

trim_left-line :
    (name key : Str) → trim_left name ≡ name → trim_left (name ++ (44 ∷ key)) ≡ name ++ (44 ∷ key)
unfolding trim_left
trim_left-line [] key h = refl
trim_left-line (c ∷ s) key h = rw (no_space c s h)

is_empty-line : (name key : Str) → is_empty (name ++ (44 ∷ key)) ≡ false
is_empty-line [] key = refl
is_empty-line (c ∷ s) key = refl

trim_right-line :
    (name key : Str) → trim_right key ≡ key → trim_right (name ++ (44 ∷ key)) ≡ name ++ (44 ∷ key)
unfolding trim_right
trim_right-line [] key h = rw h (ground arith)
trim_right-line (c ∷ s) key h = rw (trim_right-line s key h, is_empty-line s key)

split_at-line :
    (name key : Str) → All IsPlain name → split_at 44 (name ++ (44 ∷ key)) ≡ some (name, key)
unfolding split_at
split_at-line [] key h = refl
split_at-line (c ∷ s) key h =
    let e : (c == 44) ≡ false = ground (arith, h.0.2) in rw (e, split_at-line s key h.1)

starts_comment-line :
    (name key : Str) → get_or name 0 0 ≢ 35 → starts_comment (name ++ (44 ∷ key)) ≡ false
starts_comment-line [] key h = refl
starts_comment-line (c ∷ s) key h = ground arith

-- A channel's line is read as the channel.
parse_channel-line :
    (ch : ChannelDef) → IsWritable ch → parse_channel (ch.name ++ (44 ∷ ch.key_hex)) ≡ some ch
unfolding parse_channel trim keep_valid
parse_channel-line ch w = rw (
  trim_left-line ch.name ch.key_hex w.name_left,
  trim_right-line ch.name ch.key_hex w.key_right,
  starts_comment-line ch.name ch.key_hex w.no_comment,
  split_at-line ch.name ch.key_hex w.name_plain,
  w.name_left,
  w.name_right,
  w.key_left,
  w.key_right,
  w.valid,
)

lines-append : (s rest : Str) → All (λ c. c ≢ 10) s → lines (s ++ (10 ∷ rest)) ≡ s ∷ lines rest
unfolding lines
lines-append [] rest h = refl
lines-append (c ∷ s) rest h =
    let e : (c == 10) ≡ false = ground (arith, h.0) in rw (e, lines-append s rest h.1)

no_newline : (s : Str) → All IsPlain s → All (λ c. c ≢ 10) s
no_newline [] h = tt
no_newline (c ∷ s) h = (h.0.1, no_newline s h.1)

line_plain :
    (ch : ChannelDef) (name : Str)
    → All IsPlain name
    → All IsPlain ch.key_hex
    → All (λ c. c ≢ 10) (name ++ (44 ∷ ch.key_hex))
line_plain ch [] h k = ((λ e. omega (arith, e)), no_newline ch.key_hex k)
line_plain ch (c ∷ s) h k = (h.0.1, line_plain ch s h.1 k)

channel_lines-line :
    (ch : ChannelDef) (chs : List ChannelDef)
    → All IsPlain ch.name
    → All IsPlain ch.key_hex
    → channel_lines (ch ∷ chs) ≡ (ch.name ++ (44 ∷ ch.key_hex)) ++ (10 ∷ channel_lines chs)
unfolding channel_lines
channel_lines-line ch chs h k =
    rw (plain-until_nul ch.name h, plain-until_nul ch.key_hex k)
      (sym (append_assoc ch.name (44 ∷ ch.key_hex) (10 ∷ channel_lines chs)))

lines-channel_lines :
    (ch : ChannelDef) (chs : List ChannelDef)
    → All IsPlain ch.name
    → All IsPlain ch.key_hex
    → lines (channel_lines (ch ∷ chs)) ≡ (ch.name ++ (44 ∷ ch.key_hex)) ∷ lines (channel_lines chs)
lines-channel_lines ch chs h k =
    ap lines (channel_lines-line ch chs h k)
    ∙ lines-append (ch.name ++ (44 ∷ ch.key_hex)) (channel_lines chs) (line_plain ch ch.name h k)

parse_channel_lines :
    (chs : List ChannelDef) → All IsWritable chs → parse_channels (lines (channel_lines chs)) ≡ chs
unfolding parse_channels
parse_channel_lines [] h = unfold lines channel_lines in refl
parse_channel_lines (ch ∷ chs) h = rw (
  lines-channel_lines ch chs h.0.name_plain h.0.key_plain,
  parse_channels,
  parse_channel-line ch h.0,
  parse_channel_lines chs h.1,
)

comment_line : (s : Str) → parse_channel (35 ∷ s) ≡ none
unfolding parse_channel trim trim_left trim_right
comment_line s = elim (Bool-cases (is_empty (trim_right s))) [ inl e ↦ rw e | inr e ↦ rw e ]

comment_lines :
    (name key : Str) (chs : List ChannelDef)
    → All IsPlain name
    → All IsPlain key
    → parse_channels (lines (channel_lines (record { name = 35 ∷ name; key_hex = key } ∷ chs)))
      ≡ parse_channels (lines (channel_lines chs))
unfolding parse_channels
comment_lines name key chs h k =
    let ch : ChannelDef = record { name = 35 ∷ name; key_hex = key } in
    let plain : All IsPlain (35 ∷ name) =
      (((λ e. omega (arith, e)), (λ e. omega (arith, e)), (λ e. omega (arith, e))), h) in
    rw (lines-channel_lines ch chs plain k, parse_channels, comment_line (name ++ (44 ∷ key)))

-- Of channels that the file can express, what saveChannels wrote is what loadChannels reads: the
-- same channels, at the same places. Such a channel has a name and a key without comma, newline and
-- NUL and without white space at their ends, the name does not begin with a number sign, and the
-- channel is one that loadChannels keeps.
pub load_channels-save_channels :
    (chs : List ChannelDef) → All IsWritable chs → load_channels (some (save_channels chs)) ≡ chs
unfolding load_channels save_channels
load_channels-save_channels chs h = parse_channel_lines chs h

parse_channels_comment :
    (chs more : List ChannelDef) (name key : Str)
    → All IsWritable chs
    → All IsWritable more
    → All IsPlain name
    → All IsPlain key
    → parse_channels
        (lines (channel_lines (chs ++ (record { name = 35 ∷ name; key_hex = key } ∷ more))))
      ≡ chs ++ more
unfolding parse_channels
parse_channels_comment [] more name key w w' h k =
    comment_lines name key more h k ∙ parse_channel_lines more w'
parse_channels_comment (ch ∷ chs) more name key w w' h k = rw (
  lines-channel_lines ch _ w.0.name_plain w.0.key_plain,
  parse_channels,
  parse_channel-line ch w.0,
  parse_channels_comment chs more name key w.1 w' h k,
)

-- A channel whose name begins with `#`, with no comma, newline or NUL in the rest of the name and
-- in the key, is not read back: among channels that the file can express, those before it keep
-- their index, and those behind it move up by one.
pub load_channels_comment :
    (chs more : List ChannelDef) (name key : Str)
    → All IsWritable chs
    → All IsWritable more
    → All IsPlain name
    → All IsPlain key
    → load_channels
        (some (save_channels (chs ++ (record { name = 35 ∷ name; key_hex = key } ∷ more))))
      ≡ chs ++ more
unfolding load_channels save_channels
load_channels_comment chs more name key w w' h k = parse_channels_comment chs more name key w w' h k
