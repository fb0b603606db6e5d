-- ===== src/Server/Clients.antt =====
-- CompanionServer::run of sdr-node/src/companion_server.cpp: clients one after another, while the
-- other threads of sdr-node/src/main.cpp change the node.
pub mod Held
use meshcore_open_sdr.Shared.{Bool, List, [], false, some, ◌++◌, ◌∷◌, ◌≡◌}
use meshcore_open_sdr.Config.IdentityFile.{written}
use meshcore_open_sdr.Library.{Library}
use meshcore_open_sdr.Node.Receive.{on_rx_packet}
use meshcore_open_sdr.Node.Sending.{send_self_advert}
use meshcore_open_sdr.Node.State.{Ambient, Node, Outcome, RxPacket}
use meshcore_open_sdr.Server.Session.{Session, disconnect, on_chunk, write_all}
use meshcore_open_sdr.Shared.Text.{Bytes, Str}

-- Either accept waits for a client, or serveClient serves one. A push copies the sender of the
-- client under the mutex and calls it later: `under_way` holds the frames whose sender was copied,
-- in order. `early` holds those that were under way when the client was accepted, whose sockets may
-- have the same descriptor.
pub data Serving : Type 0 where
  listening : (n : Node) (under_way : List Bytes) → Serving
  serving : (s : Session) (under_way early : List Bytes) → Serving

abbrev pub current_node : Serving → Node
current_node (listening n under_way) = n
current_node (serving s under_way early) = s.node

-- The locals of serveClient before its first read.
unfoldable pub fresh_session : Node → Session
fresh_session n = record { buf = []; app_spoke = false; node = n; written = [] }

-- Another thread leaves a node, and its pushes are under way from then on.
unfoldable pub told : Node → List Bytes → Serving → Serving
told n pushes (listening old under_way) = listening n (under_way ++ pushes)
told n pushes (serving s under_way early) =
    serving (record s { node = n }) (under_way ++ pushes) early

-- The server's own steps: accept, a read with all that follows from it, and the end of a client.
-- The others' steps: a packet is received, an advert is queued, the transmitter fetches a packet,
-- and the sender of a push under way is called, which writes to whoever has the descriptor then, or
-- to nobody. Where another thread comes between two frames of a read, that is two reads here. An
-- accept that fails changes nothing, and `running_` is cleared only by the signal handler, which
-- exits. What a handler does to the node, and which senders it copies, is one step.
pub data ServingStep (lib : Library) : Serving → Serving → Type 0 where
  accepts :
      (n : Node) (under_way : List Bytes)
      → ServingStep lib (listening n under_way) (serving (fresh_session n) under_way under_way)
  reads :
      (env : Ambient) (chunk : Bytes) (s t : Session) (under_way early : List Bytes)
      → on_chunk lib env chunk s ≡ some t
      → ServingStep lib (serving s under_way early) (serving t under_way early)
  hangs_up :
      (s : Session) (under_way early : List Bytes)
      → ServingStep lib (serving s under_way early) (listening (disconnect s) under_way)
  overhears :
      (env : Ambient) (pkt : RxPacket) (v : Serving) (o : Outcome)
      → on_rx_packet lib env pkt (current_node v) ≡ some o
      → ServingStep lib v (told o.node o.pushes v)
  announces :
      (env : Ambient) (flooding : Bool) (v : Serving)
      → ServingStep lib v (told (send_self_advert lib env flooding (current_node v)) [] v)
  transmits :
      (v : Serving) (hex : Str) (rest : List Str)
      → (current_node v).tx_queue ≡ hex ∷ rest
      → ServingStep lib v (told (record (current_node v) { tx_queue = rest }) [] v)
  arrives :
      (s : Session) (f : Bytes) (under_way early : List Bytes)
      → ServingStep lib
          (serving s (f ∷ under_way) early)
          (serving (record s { written = s.written ++ write_all (f ∷ []) }) under_way early)
  is_lost :
      (n : Node) (f : Bytes) (under_way : List Bytes)
      → ServingStep lib (listening n (f ∷ under_way)) (listening n under_way)

pub data ServingReach (lib : Library) (v : Serving) : Serving → Type 0 where
  opens : ServingReach lib v v
  serves : {u w : Serving} → ServingReach lib v u → ServingStep lib u w → ServingReach lib v w
