-- ===== src/Server/Greeting.antt =====
-- CMD_APP_START of sdr-node/src/node.cpp and the limit of sendFrame in
-- sdr-node/src/companion_server.cpp: which self info reaches the app.
use meshcore_open_sdr.Shared.{[], arith, none, ◌+◌, ◌↔◌, ◌∷◌, ◌≡◌, ◌≢◌, ◌≤◌}
use meshcore_open_sdr.Library.{Library}
use meshcore_open_sdr.Node.Frames.{self_info}
use meshcore_open_sdr.Node.State.{Node}
use meshcore_open_sdr.Server.Framing.{send_frame}
use meshcore_open_sdr.Shared.Lists.{length, length-append}
use meshcore_open_sdr.Shared.Text.{Bytes}

length-self_info :
    (lib : Library) (n : Node)
    → length n.id.my_pub ≡ 32
    → length (self_info lib n) ≡ 59 + length n.cfg.name
unfolding self_info
length-self_info lib n h =
    rw (length-append n.id.my_pub, length-append n.cfg.name (0 ∷ []), h) (omega arith)

send_frame-delivers :
    (payload : Bytes) → 1 ≤ length payload → (send_frame payload ≢ none) ↔ (length payload ≤ 172)
unfolding send_frame
send_frame-delivers [] h = absurd (omega arith)
send_frame-delivers (x ∷ payload) h = ground arith

-- The answer to CMD_APP_START goes out if and only if the node's name has at most 113 bytes;
-- a longer one, which CMD_SET_ADVERT_NAME or the configuration can set, makes sendFrame drop it.
pub send_frame-self_info :
    (lib : Library) (n : Node)
    → length n.id.my_pub ≡ 32
    → (send_frame (self_info lib n) ≢ none) ↔ (length n.cfg.name ≤ 113)
send_frame-self_info lib n h =
    let l = length-self_info lib n h in
    let d = send_frame-delivers (self_info lib n) (omega (arith, l)) in
    (λ goes. omega (arith, l, d.0 goes), λ short. d.1 (omega (arith, l)))
