-- ===== src/Tests/Serving.antt =====
-- The stream of the app's bytes at concrete inputs.
use meshcore_open_sdr.Server.Framing as Framing
use meshcore_open_sdr.Shared.{
  [], arith, false, none, refl, true, ◌++◌, ◌<◌, ◌↔◌, ◌∷◌, ◌≡◌, ◌≢◌, ◌≤◌,
}
use meshcore_open_sdr.Node.Frames.{self_info}
use meshcore_open_sdr.Node.State.{Node}
use meshcore_open_sdr.Server.Framing.{drain, scan, send_frame}
use meshcore_open_sdr.Server.Framing.Resync.{scan-noise, scan_left}
use meshcore_open_sdr.Server.Framing.Stream.{Drains, app_stream, scan-Drains, scan-append}
use meshcore_open_sdr.Server.Greeting.{send_frame-self_info}
use meshcore_open_sdr.Server.Session.{Session, on_chunk, write_all}
use meshcore_open_sdr.Server.Session.Chunks.{on_chunk-append}
use meshcore_open_sdr.Shared.Lists.{length}
use meshcore_open_sdr.Shared.Tests.{◌>>=◌}
use meshcore_open_sdr.Shared.Text.{Bytes}
use meshcore_open_sdr.Tests.Samples.{sample_env, sample_lib, sample_node}

abbrev query : Bytes
query = 5 ∷ []

abbrev sample_session : Session
sample_session = record { buf = []; app_spoke = false; node = sample_node; written = [] }

scan-append_example : scan ((60 ∷ 1 ∷ []) ++ (0 ∷ 5 ∷ 60 ∷ [])) ≡ ((5 ∷ []) ∷ [], 60 ∷ [])
unfolding scan drain Framing.round
scan-append_example = scan-append (60 ∷ 1 ∷ []) (0 ∷ 5 ∷ 60 ∷ [])

scan-Drains_example : Drains (60 ∷ 1 ∷ 0 ∷ 5 ∷ 60 ∷ []) ((5 ∷ []) ∷ []) (60 ∷ [])
unfolding scan drain Framing.round
scan-Drains_example = scan-Drains (60 ∷ 1 ∷ 0 ∷ 5 ∷ 60 ∷ [])

scan-noise_example :
    scan ((1 ∷ 2 ∷ []) ++ (app_stream (query ∷ []) ++ (60 ∷ [])))
    ≡ ((query ∷ []) ++ (scan (60 ∷ [])).0, (scan (60 ∷ [])).1)
scan-noise_example =
    scan-noise (1 ∷ 2 ∷ []) (60 ∷ []) query []
      ((λ e. omega (arith, e)), ((λ e. omega (arith, e)), tt)) (omega arith, tt)

scan_left_example :
    (length (scan (60 ∷ 9 ∷ 0 ∷ 5 ∷ [])).1 < 175)
    × (Framing.round (scan (60 ∷ 9 ∷ 0 ∷ 5 ∷ [])).1 ≡ Framing.stop)
scan_left_example = scan_left (60 ∷ 9 ∷ 0 ∷ 5 ∷ [])

on_chunk-append_example : on_chunk sample_lib sample_env (60 ∷ 1 ∷ 0 ∷ 5 ∷ []) sample_session ≡ (
    on_chunk sample_lib sample_env (60 ∷ 1 ∷ []) sample_session >>= λ s.
    on_chunk sample_lib sample_env (0 ∷ 5 ∷ []) s)
on_chunk-append_example =
    on_chunk-append sample_lib sample_env (60 ∷ 1 ∷ []) (0 ∷ 5 ∷ []) sample_session

send_frame-self_info_example :
    (send_frame (self_info sample_lib sample_node) ≢ none) ↔ (length sample_node.cfg.name ≤ 113)
send_frame-self_info_example = send_frame-self_info sample_lib sample_node refl

abbrev alone : Node
alone = record sample_node { app = false }

-- The app asks for the time, and 1000 seconds are answered.
abbrev asked : Session
asked = record {
  buf = [];
  app_spoke = true;
  node = sample_node;
  written = (62 ∷ 5 ∷ 0 ∷ 9 ∷ 232 ∷ 3 ∷ 0 ∷ 0 ∷ []) ∷ [];
}

-- A push for an earlier client reaches the one that comes next, which then asks.
abbrev late : Session
late = record asked { written = write_all ((0x83 ∷ []) ∷ []) ++ asked.written }
