-- ===== src/Node/Repeats.antt =====
-- A packet that onRxPacket of sdr-node/src/node.cpp handled, and the same payload heard again.
use meshcore_open_sdr.Shared.{List, Option, [], some, true, ℕ, ◌≡◌, ◌≤◌}
use meshcore_open_sdr.Library.{Library}
use meshcore_open_sdr.Node.Air.{Settled}
use meshcore_open_sdr.Node.Queues.{is_recent}
use meshcore_open_sdr.Node.Receive.{count_airtime, monitor, on_rx_packet, payload_key}
use meshcore_open_sdr.Node.State.{Ambient, Node, Outcome, RxPacket}
use meshcore_open_sdr.Shared.Map.{IsSorted, Map, find, nat_key, str_key}
use meshcore_open_sdr.Shared.Tests.{◌>>=◌}
use meshcore_open_sdr.Shared.Text.{Str}

-- The payload is noted, and a repeat at that time is a duplicate.
abbrev pub NotedBy : Str → ℕ → Map Str ℕ → List Str → Settled → Type 0
NotedBy p later seen queue rest = IsSorted seen × (is_recent later (find p seen) ≡ true)

abbrev IsNoted : Str → ℕ → Node → Type 0
IsNoted p later n = IsSorted n.seen × (is_recent later (find p n.seen) ≡ true)

-- What a packet is known by once it is decoded.
abbrev pub key_of : Library → RxPacket → Str
key_of lib pkt = payload_key (lib.decode pkt.hex)

-- Packets that are handled one after another, within a time.
pub data Hears (lib : Library) (from to : ℕ) (n : Node) : Node → Type 0 where
  hears_none : Hears lib from to n n
  hears_also :
      {m : Node} (env : Ambient) (pkt : RxPacket) (o : Outcome)
      → Hears lib from to n m
      → from ≤ pkt.time
      → pkt.time ≤ to
      → on_rx_packet lib env pkt m ≡ some o
      → Hears lib from to n o.node

module _ (lib : Library) where
  -- What is left of onRxPacket for a repeat: the monitor's push, the signal and the airtime.
  abbrev pub only_heard : RxPacket → Node → Option Outcome
  only_heard pkt n = monitor lib pkt (record n { last_snr = pkt.snr }) >>= λ heard. some (record {
    node = count_airtime pkt (record n { last_snr = pkt.snr });
    replies = [];
    pushes = heard.pushes;
  })
