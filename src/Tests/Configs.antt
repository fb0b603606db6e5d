-- ===== src/Tests/Configs.antt =====
-- The channel file at concrete inputs.
use meshcore_open_sdr.Shared.{Bool, [], arith, not, refl, some, true, ◌&&◌, ◌∷◌, ◌≡◌}
use meshcore_open_sdr.Config.Channels.{
  all_hex, load_channels, save_channels, trim_left, trim_right, valid_channel,
}
use meshcore_open_sdr.Config.Channels.RoundTrip.{
  IsPlain, IsWritable, load_channels-save_channels, load_channels_comment,
}
use meshcore_open_sdr.Node.Contacts.{no_channel}
use meshcore_open_sdr.Node.State.{ChannelDef}
use meshcore_open_sdr.Shared.Lists.{All, replicate}
use meshcore_open_sdr.Shared.Tests.{◌==◌}
use meshcore_open_sdr.Shared.Text.{Str, codes}
use meshcore_open_sdr.Tests.Samples.{to_hex}

abbrev pub good_channel : ChannelDef
good_channel = record { name = codes "A b"; key_hex = to_hex (replicate 16 1) }

abbrev all_plain : Str → Bool
all_plain [] = true
all_plain (c ∷ s) = not (c == 0) && not (c == 10) && not (c == 44) && all_plain s

all_plain-IsPlain : (s : Str) → all_plain s ≡ true → All IsPlain s
all_plain-IsPlain [] h = tt
all_plain-IsPlain (c ∷ s) h = ground (arith, all_plain-IsPlain s)

pub good_channel-IsWritable : IsWritable good_channel
unfolding trim_left trim_right valid_channel all_hex
good_channel-IsWritable = record {
  name_plain = all_plain-IsPlain (codes "A b") refl;
  key_plain = all_plain-IsPlain (to_hex (replicate 16 1)) refl;
  name_left = refl;
  name_right = refl;
  key_left = refl;
  key_right = refl;
  no_comment = λ e. omega (arith, e);
  valid = refl;
}

no_channel-IsWritable : IsWritable no_channel
unfolding trim_left trim_right valid_channel all_hex
no_channel-IsWritable = record {
  name_plain = tt;
  key_plain = tt;
  name_left = refl;
  name_right = refl;
  key_left = refl;
  key_right = refl;
  no_comment = λ e. omega (arith, e);
  valid = refl;
}

load_channels-save_channels_example :
    load_channels (some (save_channels (good_channel ∷ no_channel ∷ [])))
    ≡ good_channel ∷ no_channel ∷ []
load_channels-save_channels_example =
    load_channels-save_channels (good_channel ∷ no_channel ∷ [])
      (good_channel-IsWritable, (no_channel-IsWritable, tt))

load_channels_comment_example :
    load_channels (
      some (
        save_channels
          (no_channel ∷ record { name = codes "#ham"; key_hex = [] } ∷ good_channel ∷ [])))
    ≡ no_channel ∷ good_channel ∷ []
load_channels_comment_example =
    load_channels_comment (no_channel ∷ []) (good_channel ∷ []) (codes "ham") []
      (no_channel-IsWritable, tt) (good_channel-IsWritable, tt)
      (all_plain-IsPlain (codes "ham") refl) tt
