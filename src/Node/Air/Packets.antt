-- ===== src/Node/Air/Packets.antt =====
-- onRxPacket of sdr-node/src/node.cpp as a whole: it keeps a predicate that seenBefore keeps
-- and that an answer on the air keeps.
use meshcore_open_sdr.Shared.{List, arith, not, some, sym, ℕ, ◌&&◌, ◌+◌, ◌≡◌}
use meshcore_open_sdr.Library.{Decoded, Library}
use meshcore_open_sdr.Node.Air.{Holds, IsClosed, Leaves, Settled, recall, settled}
use meshcore_open_sdr.Node.Air.Payloads.{on_payload-Leaves}
use meshcore_open_sdr.Node.Queues.{seen_before}
use meshcore_open_sdr.Node.Receive.{count_airtime, monitor, on_decoded, on_rx_packet, payload_key}
use meshcore_open_sdr.Node.State.{Ambient, Node, Outcome, RxPacket}
use meshcore_open_sdr.Shared.Lists.{length}
use meshcore_open_sdr.Shared.Map.{Map}
use meshcore_open_sdr.Shared.Tests.{
  Returns, Returns-bind, Returns-some, Returns-then, if_elim, leb, returns,
}
use meshcore_open_sdr.Shared.Text.{Str, is_empty}
use mathlib.Core.Path.{subst}

pub seen_before-kept :
    (key : Str) (now : ℕ) (n : Node)
    → ((seen_before key now n).1.tx_queue ≡ n.tx_queue)
      × (settled (seen_before key now n).1 ≡ settled n)
unfolding seen_before
seen_before-kept key now n = ground arith

-- What seenBefore keeps.
abbrev pub IsSeenThrough : (Map Str ℕ → List Str → Settled → Type 0) → ℕ → Type 0
IsSeenThrough P now = (key : Str) (n : Node) → Holds P n → Holds P (seen_before key now n).1

module _ (P : Map Str ℕ → List Str → Settled → Type 0) (lib : Library) (env : Ambient)
    (pkt : RxPacket) (through : IsSeenThrough P pkt.time) (closed : IsClosed P pkt.time) where
  on_decoded-Leaves :
      (d : Decoded) (n : Node) → Holds P n → Returns (Leaves P) (on_decoded lib env pkt d n)
  unfolding on_decoded
  on_decoded-Leaves d n h =
      let h' = through (payload_key d) n h in
      if_elim (Returns (Leaves P)) (not d.is_valid && is_empty d.payload_raw) (returns (recall P h))
        (if_elim (Returns (Leaves P)) (seen_before (payload_key d) pkt.time n).0
          (returns (recall P h')) (on_payload-Leaves P lib env pkt d _ closed h' d.payload_type))

  pub monitor-Leaves : (n : Node) → Holds P n → Returns (Leaves P) (monitor lib pkt n)
  unfolding monitor
  monitor-Leaves n h =
      if_elim (Returns (Leaves P)) n.cfg.log_rx_data
        (Returns-bind (lib.hex_to_bytes pkt.hex) (λ raw.
          returns (if_elim (Leaves P) (leb (length raw + 3) 172) (recall P h) (recall P h))))
        (returns (recall P h))

  pub on_rx_packet-through :
      (n : Node) (o : Outcome) → on_rx_packet lib env pkt n ≡ some o → Holds P n → Leaves P o
  unfolding on_rx_packet
  on_rx_packet-through n o e h = Returns-some (
      subst (Returns (Leaves P)) e (
        Returns-then (monitor lib pkt (record n { last_snr = pkt.snr }))
          (monitor-Leaves (record n { last_snr = pkt.snr }) h)
          (λ heard k.
            Returns-then
              (on_decoded lib env pkt (lib.decode pkt.hex) (count_airtime pkt heard.node))
              (on_decoded-Leaves (lib.decode pkt.hex) (count_airtime pkt heard.node) k.holds)
              (λ handled k'. returns (recall P k'.holds)))))

-- What a predicate says of the queue and of what no packet changes it says whatever is noted.
abbrev pub LooksAway : (Map Str ℕ → List Str → Settled → Type 0) → Type 0
LooksAway P =
    (seen seen' : Map Str ℕ) (queue : List Str) (rest : Settled)
    → P seen queue rest
    → P seen' queue rest

LooksAway-IsSeenThrough :
    (P : Map Str ℕ → List Str → Settled → Type 0) (now : ℕ) → LooksAway P → IsSeenThrough P now
LooksAway-IsSeenThrough P now away key n h =
    let n' = (seen_before key now n).1 in
    let (q, a) = seen_before-kept key now n in
    subst (λ queue. P n'.seen queue (settled n')) (sym q)
      (subst (λ rest. P n'.seen n.tx_queue rest) (sym a)
        (away n.seen n'.seen n.tx_queue (settled n) h))

pub on_rx_packet-Leaves :
    (P : Map Str ℕ → List Str → Settled → Type 0)
    → LooksAway P
    → (lib : Library) (env : Ambient) (pkt : RxPacket) → IsClosed P pkt.time
    → (n : Node) (o : Outcome) → on_rx_packet lib env pkt n ≡ some o
    → Holds P n
    → Leaves P o
on_rx_packet-Leaves P away lib env pkt closed =
    on_rx_packet-through P lib env pkt (LooksAway-IsSeenThrough P pkt.time away) closed
