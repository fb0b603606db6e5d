-- ===== src/Config/Channels.antt =====
-- trim, loadChannels and saveChannels of sdr-node/src/node_config.cpp: the channel file.
pub mod RoundTrip
use meshcore_open_sdr.Shared.{Bool, List, Option, [], none, some, true, ℕ, ◌&&◌, ◌++◌, ◌||◌, ◌∷◌}
use meshcore_open_sdr.Node.State.{ChannelDef}
use meshcore_open_sdr.Shared.Decimal.{lines}
use meshcore_open_sdr.Shared.Lists.{length}
use meshcore_open_sdr.Shared.Tests.{if◌then◌else◌, leb, ◌==◌}
use meshcore_open_sdr.Shared.Text.{Str, codes, is_empty, until_nul}

abbrev pub is_space : ℕ → Bool
is_space c = c == b' ' || c == 9 || c == 13 || c == 10

-- `s.substr(s.find_first_not_of(" \t\r\n"))`, or the empty text
unfoldable pub trim_left : Str → Str
trim_left [] = []
trim_left (c ∷ s) = let rest = trim_left s in if is_space c then rest else c ∷ s

-- What `find_last_not_of` leaves.
unfoldable pub trim_right : Str → Str
trim_right [] = []
trim_right (c ∷ s) = let rest = trim_right s in if is_empty rest && is_space c then [] else c ∷ rest

unfoldable pub trim : Str → Str
unfolding trim_left trim_right
trim s = trim_right (trim_left s)

-- `line.find(',')`: what stands before the first such byte and behind it.
unfoldable pub split_at : ℕ → Str → Option (Str × Str)
split_at sep [] = none
split_at sep (c ∷ s) =
    let rest : Option (Str × Str) = elim (split_at sep s) [
      | none ↦ none
      | some (a, b) ↦ some (c ∷ a, b)
    ] in
    if c == sep then some ([], s) else rest

abbrev pub is_hex_digit : ℕ → Bool
is_hex_digit c =
    (leb b'0' c && leb c b'9') || (leb b'a' c && leb c b'f') || (leb b'A' c && leb c b'F')

unfoldable pub all_hex : Str → Bool
all_hex [] = true
all_hex (c ∷ s) = is_hex_digit c && all_hex s

-- A named channel needs a key of 32 hex digits; a slot with no name is taken as it is.
unfoldable pub valid_channel : ChannelDef → Bool
unfolding all_hex
valid_channel ch = is_empty ch.name || (length ch.key_hex == 32 && all_hex ch.key_hex)

abbrev pub starts_comment : Str → Bool
starts_comment [] = true
starts_comment (c ∷ s) = c == b'#'

unfoldable pub keep_valid : ChannelDef → Option ChannelDef
unfolding valid_channel
keep_valid ch = if valid_channel ch then some ch else none

unfoldable pub parse_channel : Str → Option ChannelDef
unfolding trim split_at keep_valid
parse_channel raw =
    let line = trim raw in
    if starts_comment line then none else elim (split_at b',' line) [
      | none ↦ none
      | some (before, after) ↦ keep_valid (record { name = trim before; key_hex = trim after })
    ]

unfoldable pub parse_channels : List Str → List ChannelDef
unfolding parse_channel
parse_channels [] = []
parse_channels (l ∷ ls) = elim (parse_channel l) [
  | none ↦ parse_channels ls
  | some ch ↦ ch ∷ parse_channels ls
]

-- The file's text, or `none` where it cannot be opened.
unfoldable pub load_channels : Option Str → List ChannelDef
unfolding parse_channels lines
load_channels none = []
load_channels (some text) = parse_channels (lines text)

unfoldable pub channel_lines : List ChannelDef → Str
channel_lines [] = []
channel_lines (ch ∷ chs) =
    until_nul ch.name ++ (b',' ∷ (until_nul ch.key_hex ++ (10 ∷ channel_lines chs)))

-- What saveChannels writes: a comment line, and a line for each channel.
unfoldable pub save_channels : List ChannelDef → Str
unfolding channel_lines until_nul
save_channels chs =
    codes "# name,keyhex - one channel per line, index = line order" ++ (10 ∷ channel_lines chs)
