-- ===== src/Server/Clients/Held.antt =====
-- Pushes are held back until the app has spoken, as a comment of serveClient in
-- sdr-node/src/companion_server.cpp says.
use meshcore_open_sdr.Shared.{List, false, true, ◌++◌, ◌≡◌, ◌⊎◌}
use meshcore_open_sdr.Library.{Library}
use meshcore_open_sdr.Node.State.{Node}
use meshcore_open_sdr.Server.Clients.{Serving, listening, serving}
use meshcore_open_sdr.Server.Session.{Session, write_all}
use meshcore_open_sdr.Shared.Text.{Bytes}

-- The node has a sender just when the client has sent a frame; a client that has not was written
-- only what was under way when it was accepted.
pub record IsHeld (s : Session) (under_way early : List Bytes) : Type 0 where
  pub open_once : s.node.app ≡ s.app_spoke
  pub unwritten : (s.app_spoke ≡ true) ⊎ (s.written ++ write_all under_way ≡ write_all early)

abbrev pub IsAttached : Serving → Type 0
IsAttached (listening n under_way) = n.app ≡ false
IsAttached (serving s under_way early) = IsHeld s under_way early

-- A session whose node has a sender just when the client has spoken.
abbrev IsOpen : Session → Type 0
IsOpen s = s.node.app ≡ s.app_spoke

-- What a read leaves: an open session that has spoken, or one that wrote nothing.
record HasRead (s t : Session) : Type 0 where
  is_open : IsOpen t
  spoken : (t.app_spoke ≡ true) ⊎ ((t.app_spoke ≡ s.app_spoke) × (t.written ≡ s.written))
