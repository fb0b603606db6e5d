-- ===== src/Node/Settings.antt =====
-- The commands of handleCommand in sdr-node/src/node.cpp that read or change the node's settings.
use meshcore_open_sdr.Shared.{[], min, not, some, ℕ, ◌%◌, ◌&&◌, ◌*◌, ◌++◌, ◌+◌, ◌-◌, ◌^◌, ◌||◌, ◌∷◌}
use meshcore_open_sdr.Library.{Library}
use meshcore_open_sdr.Node.Files.{save_prefs}
use meshcore_open_sdr.Node.Queues.{whole_seconds}
use meshcore_open_sdr.Node.State.{Ambient, Node, Outcome, clock_u32, err_frame, ok_frame, reply}
use meshcore_open_sdr.Shared.Decimal.{has_substring, show_nat}
use meshcore_open_sdr.Shared.Lists.{drop, get_or, length, replicate, take}
use meshcore_open_sdr.Shared.Tests.{if◌then◌else◌, leb, ltb, ◌==◌}
use meshcore_open_sdr.Shared.Text.{Bytes, Str, codes, is_empty, until_nul}
use meshcore_open_sdr.Wire.{clamp_byte, get_u32, rssi_of, slice, snr_quarters, u32}

abbrev battery : Bytes
battery = 104 ∷ 16 ∷ []

-- CMD_GET_CUSTOM_VAR, CMD_GET_BATT_AND_STORAGE and CMD_GET_AUTO_ADD_CONFIG
unfoldable pub get_custom_var : Node → Outcome
get_custom_var n = reply n (21 ∷ (codes "gps:0" ++ (0 ∷ [])))

unfoldable pub get_batt_and_storage : Node → Outcome
get_batt_and_storage n = reply n ((12 ∷ battery) ++ (u32 0 ++ u32 0))

unfoldable pub get_auto_add_config : Node → Outcome
get_auto_add_config n = reply n (25 ∷ 0x1F ∷ 64 ∷ [])

-- The name ends at the first NUL, and an empty one is ignored.
unfoldable pub set_advert_name : Node → Bytes → Outcome
unfolding until_nul
set_advert_name n f =
    let name = until_nul (drop 1 f) in
    if ltb 1 (length f) && not (is_empty name)
    then reply (record n { cfg = record n.cfg { name = name } }) ok_frame
    else reply n ok_frame

unfoldable pub set_advert_latlon : Library → Node → Bytes → Outcome
unfolding get_u32
set_advert_latlon lib n f =
    if leb 9 (length f)
    then reply
        (record n {
          cfg = record n.cfg {
            lat = some (lib.degrees (get_u32 f 1));
            lon = some (lib.degrees (get_u32 f 5));
          };
        })
        ok_frame
    else reply n ok_frame

-- `rx_channels += (rx_channels.empty() ? "" : ",") + freqStr`
abbrev watch : Str → Str → Str
watch channels freq = if is_empty channels then freq else channels ++ (b',' ∷ freq)

-- The frame carries the frequency in kHz, the bandwidth in Hz and the coding rate as 5 to 8.
-- The receiver is restarted when it does not watch the frequency already.
abbrev retune : Node → ℕ → ℕ → ℕ → ℕ → Node
retune n freq bw sf cr =
    let watched = has_substring (show_nat freq) n.radio.rx_channels in
    record n {
      cfg = record n.cfg { tx_freq = freq; bw = bw; tx_sf = sf; tx_cr = cr };
      radio = record {
        rx_channels =
            if watched then n.radio.rx_channels else watch n.radio.rx_channels (show_nat freq);
        bw = bw;
        tx_freq = freq;
        tx_sf = sf;
        tx_cr = cr;
        restarts = if watched then n.radio.restarts else n.radio.restarts + 1;
      };
    }

unfoldable pub set_radio_params : Node → Bytes → Outcome
unfolding get_u32 show_nat has_substring
set_radio_params n f =
    let cr = get_or f 10 0 in
    if leb 11 (length f)
    then reply
        (retune n (get_u32 f 1 * 1000 % 2 ^ 32) (get_u32 f 5) (get_or f 9 0)
          (if leb 5 cr then cr - 4 else cr))
        ok_frame
    else reply n ok_frame

-- CMD_GET_STATS: the core statistics, the radio's, or an error; no second byte asks for the radio's.
abbrev core_stats : Ambient → Node → Bytes
core_stats env n =
    (24 ∷ 0 ∷ battery)
    ++ (u32 (env.clock + 2 ^ 64 - n.start_time) ++ (0 ∷ 0 ∷ min 255 (length n.tx_queue) ∷ []))

abbrev radio_stats : Node → Bytes
radio_stats n =
    (24
      ∷ 1
      ∷ 151
      ∷ 255
      ∷ clamp_byte (rssi_of n.last_snr)
      ∷ clamp_byte (snr_quarters n.last_snr)
      ∷ [])
    ++ (u32 (whole_seconds n.tx_air) ++ u32 (whole_seconds n.rx_air))

unfoldable pub get_stats : Ambient → Node → Bytes → Outcome
unfolding rssi_of snr_quarters clamp_byte whole_seconds
get_stats env n f =
    let sub = if ltb 1 (length f) then get_or f 1 0 else 1 in
    if sub == 0
    then reply n (core_stats env n)
    else if sub == 1
    then reply n (radio_stats n)
    else reply n (err_frame 1)

unfoldable pub get_device_time : Ambient → Node → Outcome
get_device_time env n = reply n (9 ∷ u32 (clock_u32 env))

-- [61][0][mode]: modes 0 to 2 are stored, and written to the preferences.
unfoldable pub set_path_hash_mode : Library → Ambient → Node → Bytes → Outcome
set_path_hash_mode lib env n f =
    let mode = get_or f 2 0 in
    if ltb (length f) 3 || not (get_or f 1 0 == 0)
    then reply n (err_frame 6)
    else if leb 3 mode
    then reply n (err_frame 6)
    else reply (save_prefs lib env (record n { path_hash_mode = mode })) ok_frame

-- [28] alone where there is no scope, else [28][name 31][key 16].
unfoldable pub get_default_flood_scope : Node → Outcome
get_default_flood_scope n =
    let text = take 30 n.scope_name in
    if is_empty n.scope_name || not (length n.scope_key == 16)
    then reply n (28 ∷ [])
    else reply n (28 ∷ (text ++ (replicate (31 - length text) 0 ++ n.scope_key)))

-- A frame of 48 bytes sets the scope unless the name is empty or fills the field; a shorter one
-- clears it.
unfoldable pub set_default_flood_scope : Library → Ambient → Node → Bytes → Outcome
unfolding until_nul
set_default_flood_scope lib env n f =
    let name = until_nul (slice 1 31 f) in
    if leb 48 (length f)
    then if is_empty name || leb 31 (length name)
      then reply n (err_frame 6)
      else reply (save_prefs lib env (record n { scope_name = name; scope_key = slice 32 16 f }))
          ok_frame
    else reply (save_prefs lib env (record n { scope_name = []; scope_key = [] })) ok_frame
