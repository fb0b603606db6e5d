-- ===== src/Node/Frames.antt =====
-- buildSelfInfo, buildDeviceInfo and buildContactFrame of sdr-node/src/node.cpp.
use meshcore_open_sdr.Shared.{Option, [], none, not, some, ℕ, ◌%◌, ◌&&◌, ◌++◌, ◌-◌, ◌/◌, ◌∷◌}
use meshcore_open_sdr.Library.{Library}
use meshcore_open_sdr.Node.State.{Ambient, Contact, Node}
use meshcore_open_sdr.Shared.Lists.{length, replicate, take}
use meshcore_open_sdr.Shared.Tests.{if◌then◌else◌, leb, ◌==◌}
use meshcore_open_sdr.Shared.Text.{Bytes, Str, codes, until_nul}
use meshcore_open_sdr.Wire.{u32}

-- `strncpy(field, s.c_str(), limit)` into a field of zeros, `limit` below its size.
unfoldable pub c_field : ℕ → ℕ → Str → Bytes
unfolding until_nul
c_field size limit s =
    let text = take limit (until_nul s) in text ++ replicate (size - length text) 0

-- `(int32_t)((x ? *x : 0.0) * 1e6)`
abbrev millionths_of : Library → Option ℕ → ℕ
millionths_of lib none = 0
millionths_of lib (some x) = lib.millionths x

unfoldable pub self_info : Library → Node → Bytes
self_info lib n =
    (5 ∷ 1 ∷ 14 ∷ 14 ∷ n.id.my_pub)
    ++ (u32 (millionths_of lib n.cfg.lat)
        ++ (u32 (millionths_of lib n.cfg.lon)
            ++ ((0 ∷ 0 ∷ 0 ∷ 0 ∷ [])
                ++ (u32 (n.cfg.tx_freq / 1000)
                    ++ (u32 n.cfg.bw
                        ++ ((n.cfg.tx_sf % 256 ∷ (n.cfg.tx_cr % 256) ∷ [])
                            ++ (n.cfg.name ++ (0 ∷ []))))))))

unfoldable pub device_info : Ambient → Node → Bytes
unfolding c_field
device_info env n =
    (13 ∷ 13 ∷ 100 ∷ 8 ∷ 0 ∷ 0 ∷ 0 ∷ 0 ∷ [])
    ++ (c_field 12 11 env.build_date
        ++ (c_field 40 39 (codes "MeshCore SDR (RTL-SDR rx, HackRF tx)")
            ++ (c_field 20 19 (codes "sdr-node 0.2") ++ (0 ∷ n.path_hash_mode ∷ []))))

-- The path field of 64 bytes, zero where there is no path or it does not fit.
unfoldable pub path_field : Contact → Bytes
path_field c =
    if not (c.out_path_len == 0xFF) && leb (length c.out_path) 64
    then c.out_path ++ replicate (64 - length c.out_path) 0
    else replicate 64 0

unfoldable pub contact_frame : Contact → ℕ → Bytes
unfolding path_field c_field
contact_frame c code =
    (code ∷ c.pub_key)
    ++ ((c.type ∷ 0 ∷ c.out_path_len ∷ [])
        ++ (path_field c
            ++ (c_field 32 31 c.name
                ++ (u32 c.last_advert ++ (u32 c.lat ++ (u32 c.lon ++ u32 c.last_mod))))))
