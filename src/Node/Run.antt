-- ===== src/Node/Run.antt =====
-- A Node of sdr-node/src/node.h at work: the server thread with the app's commands, the radio
-- thread with the packets, the connections of the app, and the transmitter's thread txWorker of
-- node.cpp, in any order, and the end that ~Node makes of the last. A handler runs as one step.
pub mod Transmitter
pub mod Order
pub mod Stopping
use meshcore_open_sdr.Shared.{
  Bool, List, Option, [], arith, false, none, some, true, ◌++◌, ◌∷◌, ◌≡◌,
}
use meshcore_open_sdr.Library.{Library}
use meshcore_open_sdr.Node.Command.{handle_command}
use meshcore_open_sdr.Node.Invariant.{IsSound}
use meshcore_open_sdr.Node.Invariant.Dispatch.{handle_command-IsSound}
use meshcore_open_sdr.Node.Invariant.Receive.{on_rx_packet-IsSound}
use meshcore_open_sdr.Node.Invariant.Sending.{send_self_advert-IsSound}
use meshcore_open_sdr.Node.Receive.{on_rx_packet}
use meshcore_open_sdr.Node.Sending.{send_self_advert}
use meshcore_open_sdr.Node.State.{Ambient, Node, Outcome, RxPacket}
use meshcore_open_sdr.Shared.Text.{Bytes, Str}

-- Beside the node, the packet that the transmitter has in hand and those it has given to the radio,
-- in order; whether the destructor has told it to stop, and whether it has ended.
pub record System : Type 0 where
  pub node : Node
  pub on_air : Option Str
  pub given : List Str
  pub tx_stop : Bool
  pub tx_ended : Bool

-- A node at work whose transmitter has had nothing to do.
abbrev pub at_work : Node → System
at_work n = record { node = n; on_air = none; given = []; tx_stop = false; tx_ended = false }

-- txWorker: a packet is fetched, `transmit` returns, or the thread ends. That `transmit` failed is
-- logged, and the packet is gone all the same.
pub data TxStep : System → System → Type 0 where
  fetches :
      (s : System) (hex : Str) (rest : List Str)
      → s.node.tx_queue ≡ hex ∷ rest
      → s.on_air ≡ none
      → s.tx_stop ≡ false
      → TxStep s (record s { node = record s.node { tx_queue = rest }; on_air = some hex })
  finishes :
      (s : System) (hex : Str) (transmitted : Bool)
      → s.on_air ≡ some hex
      → TxStep s (record s { on_air = none; given = s.given ++ (hex ∷ []) })
  quits :
      (s : System)
      → s.on_air ≡ none
      → s.tx_stop ≡ true
      → s.tx_ended ≡ false
      → TxStep s (record s { tx_ended = true })

pub data Step (lib : Library) : System → System → Type 0 where
  handles :
      (s : System) (env : Ambient) (f : Bytes) (o : Outcome)
      → handle_command lib env s.node f ≡ some o
      → Step lib s (record s { node = o.node })
  hears :
      (s : System) (env : Ambient) (pkt : RxPacket) (o : Outcome)
      → on_rx_packet lib env pkt s.node ≡ some o
      → Step lib s (record s { node = o.node })
  advertises :
      (s : System) (env : Ambient) (flooding : Bool)
      → Step lib s (record s { node = send_self_advert lib env flooding s.node })
  connects :
      (s : System) (app : Bool) → Step lib s (record s { node = record s.node { app = app } })
  works : {s t : System} → TxStep s t → Step lib s t
  stops : (s : System) → Step lib s (record s { tx_stop = true })

pub data Reach (lib : Library) (s : System) : System → Type 0 where
  begins : Reach lib s s
  continues : {t u : System} → Reach lib s t → Step lib t u → Reach lib s u

Step-IsSound : (lib : Library) {s t : System} → Step lib s t → IsSound s.node → IsSound t.node
Step-IsSound lib (handles s env f o e) h = handle_command-IsSound lib env s.node f o e h
Step-IsSound lib (hears s env pkt o e) h = on_rx_packet-IsSound lib env pkt s.node o e h
Step-IsSound lib (advertises s env flooding) h = send_self_advert-IsSound lib env flooding s.node h
Step-IsSound lib (connects s app) h = ground arith
Step-IsSound lib (works (fetches s hex rest e idle going)) h = ground arith
Step-IsSound lib (works (finishes s hex transmitted e)) h = h
Step-IsSound lib (stops s) h = h
Step-IsSound lib (works (quits s idle stopped running)) h = h

-- Whatever commands, packets, connections and transmissions follow one another, the queues of a
-- sound node stay within their limits and its maps keep one entry for a key.
pub Reach-IsSound : (lib : Library) (s t : System) → IsSound s.node → Reach lib s t → IsSound t.node
Reach-IsSound lib s t h begins = h
Reach-IsSound lib s t h (continues {t = u} r st) = Step-IsSound lib st (Reach-IsSound lib s u h r)
