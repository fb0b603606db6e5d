-- ===== src/Server/Session.antt =====
-- serveClient of sdr-node/src/companion_server.cpp: one client's connection to the node.
pub mod Chunks
use meshcore_open_sdr.Shared.{Bool, List, Option, [], false, none, some, true, ◌++◌, ◌∷◌}
use meshcore_open_sdr.Library.{Library}
use meshcore_open_sdr.Node.Command.{handle_command}
use meshcore_open_sdr.Node.State.{Ambient, Node}
use meshcore_open_sdr.Server.Framing.{scan, send_frame}
use meshcore_open_sdr.Shared.Tests.{if◌then◌else◌, ◌>>=◌}
use meshcore_open_sdr.Shared.Text.{Bytes}

-- `written` holds the frames written to the client, in order.
pub record Session : Type 0 where
  pub buf : Bytes
  pub app_spoke : Bool
  pub node : Node
  pub written : List Bytes

-- The writes of sendFrame for a list of payloads.
unfoldable pub write_all : List Bytes → List Bytes
unfolding send_frame
write_all [] = []
write_all (p ∷ ps) = elim (send_frame p) [ none ↦ write_all ps | some f ↦ f ∷ write_all ps ]

-- The push channel is opened by the first frame, since the app listens from then on.
abbrev pub speak : Session → Node
speak s = if s.app_spoke then s.node else record s.node { app = true }

-- What one frame does; `none` where an exception leaves the handler.
unfoldable pub on_frame : Library → Ambient → Bytes → Session → Option Session
on_frame lib env f s = do
  o ← handle_command lib env (speak s) f
  some (record s {
    app_spoke = true;
    node = o.node;
    written = s.written ++ write_all (o.replies ++ o.pushes);
  })

unfoldable pub on_frames : Library → Ambient → List Bytes → Session → Option Session
unfolding on_frame
on_frames lib env [] s = some s
on_frames lib env (f ∷ fs) s = on_frame lib env f s >>= λ s'. on_frames lib env fs s'

-- A read of the socket: the frames that are complete are handled, the remainder waits.
unfoldable pub on_chunk : Library → Ambient → Bytes → Session → Option Session
unfolding on_frames
on_chunk lib env chunk s =
    let (fs, rest) = scan (s.buf ++ chunk) in
    on_frames lib env fs s >>= λ s'. some (record s' { buf = rest })

-- `setAppSender(nullptr)` when the client is gone.
unfoldable pub disconnect : Session → Node
disconnect s = record s.node { app = false }
