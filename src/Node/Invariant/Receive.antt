-- ===== src/Node/Invariant/Receive.antt =====
-- onRxPacket of sdr-node/src/node.cpp as a whole keeps the invariant of the node.
use meshcore_open_sdr.Shared.{arith, not, some, ◌&&◌, ◌+◌, ◌≡◌}
use meshcore_open_sdr.Library.{Decoded, Library, PayloadType}
use meshcore_open_sdr.Node.Invariant.{IsSound, Keeps, keep, seen_before-IsSound}
use meshcore_open_sdr.Node.Invariant.Answers.{
  on_ack-Keeps, on_path-Keeps, on_response-Keeps, on_text_message-Keeps,
}
use meshcore_open_sdr.Node.Invariant.Packets.{
  on_advert-Keeps, on_control-Keeps, on_group_data-Keeps, on_group_text-Keeps, on_trace-Keeps,
}
use meshcore_open_sdr.Node.Queues.{seen_before}
use meshcore_open_sdr.Node.Receive.{
  count_airtime, monitor, on_decoded, on_payload, on_rx_packet, payload_key,
}
use meshcore_open_sdr.Node.State.{Ambient, Node, Outcome, RxPacket}
use meshcore_open_sdr.Shared.Int.{ℤ}
use meshcore_open_sdr.Shared.Lists.{length}
use meshcore_open_sdr.Shared.Tests.{
  Returns, Returns-bind, Returns-some, Returns-then, if_elim, leb, returns,
}
use meshcore_open_sdr.Shared.Text.{is_empty}
use mathlib.Core.Path.{subst}

on_payload-Keeps :
    (lib : Library) (env : Ambient) (pkt : RxPacket) (d : Decoded) (n : Node) (kind : PayloadType)
    → IsSound n
    → Returns Keeps (on_payload lib env pkt d n kind)
unfolding on_payload
on_payload-Keeps lib env pkt d n PayloadType.group_text s =
    Returns-bind (lib.hex_to_bytes d.payload_raw) (λ p. returns (on_group_text-Keeps lib d n p s))
on_payload-Keeps lib env pkt d n PayloadType.advert s = on_advert-Keeps lib env pkt d n s
on_payload-Keeps lib env pkt d n PayloadType.text_message s =
    Returns-bind (lib.hex_to_bytes d.payload_raw) (λ p. on_text_message-Keeps lib env pkt d n p s)
on_payload-Keeps lib env pkt d n PayloadType.control s =
    Returns-bind (lib.hex_to_bytes d.payload_raw) (λ p. returns (on_control-Keeps pkt d n p s))
on_payload-Keeps lib env pkt d n PayloadType.group_data s =
    Returns-bind (lib.hex_to_bytes d.payload_raw)
      (λ p. returns (on_group_data-Keeps lib pkt d n p s))
on_payload-Keeps lib env pkt d n PayloadType.trace s =
    Returns-bind (lib.hex_to_bytes d.payload_raw) (λ p. on_trace-Keeps lib pkt d n p s)
on_payload-Keeps lib env pkt d n PayloadType.response s =
    Returns-bind (lib.hex_to_bytes d.payload_raw) (λ p. returns (on_response-Keeps lib pkt n p s))
on_payload-Keeps lib env pkt d n PayloadType.path_return s =
    Returns-bind (lib.hex_to_bytes d.payload_raw) (λ p. returns (on_path-Keeps lib env pkt n p s))
on_payload-Keeps lib env pkt d n PayloadType.ack s =
    Returns-bind (lib.hex_to_bytes d.payload_raw) (λ p. returns (on_ack-Keeps pkt n p s))
on_payload-Keeps lib env pkt d n _ s = returns (keep s)

on_decoded-Keeps :
    (lib : Library) (env : Ambient) (pkt : RxPacket) (d : Decoded) (n : Node)
    → IsSound n
    → Returns Keeps (on_decoded lib env pkt d n)
unfolding on_decoded
on_decoded-Keeps lib env pkt d n s =
    let noted = seen_before-IsSound (payload_key d) pkt.time n s in
    if_elim (Returns Keeps) (not d.is_valid && is_empty d.payload_raw) (returns (keep s)) (
      if_elim (Returns Keeps) (seen_before (payload_key d) pkt.time n).0 (returns (keep noted))
        (on_payload-Keeps lib env pkt d _ d.payload_type noted))

monitor-Keeps :
    (lib : Library) (pkt : RxPacket) (n : Node) → IsSound n → Returns Keeps (monitor lib pkt n)
unfolding monitor
monitor-Keeps lib pkt n s =
    if_elim (Returns Keeps) n.cfg.log_rx_data
      (Returns-bind (lib.hex_to_bytes pkt.hex)
        (λ raw. returns (if_elim Keeps (leb (length raw + 3) 172) (keep s) (keep s))))
      (returns (keep s))

on_rx_packet-Keeps :
    (lib : Library) (env : Ambient) (pkt : RxPacket) (n : Node)
    → IsSound n
    → Returns Keeps (on_rx_packet lib env pkt n)
unfolding on_rx_packet
on_rx_packet-Keeps lib env pkt n s =
    Returns-then (monitor lib pkt (record n { last_snr = pkt.snr }))
      (monitor-Keeps lib pkt _ (snr_sound pkt.snr n s))
      (λ heard k.
        Returns-then (on_decoded lib env pkt (lib.decode pkt.hex) (count_airtime pkt heard.node))
          (on_decoded-Keeps lib env pkt _ _ (air_sound heard.node k.sound))
          (λ handled k'. returns (keep k'.sound)))
  where
    snr_sound : (snr : ℤ) (n : Node) → IsSound n → IsSound (record n { last_snr = snr })
    snr_sound snr n s = ground arith

    air_sound : (n : Node) → IsSound n → IsSound (count_airtime pkt n)
    air_sound n s = ground arith

-- Whatever is received, with whatever answers of the decoder, the handler leaves a sound node.
pub on_rx_packet-IsSound :
    (lib : Library) (env : Ambient) (pkt : RxPacket) (n : Node) (o : Outcome)
    → on_rx_packet lib env pkt n ≡ some o
    → IsSound n
    → IsSound o.node
on_rx_packet-IsSound lib env pkt n o e s =
    Keeps.sound (Returns-some (subst (Returns Keeps) e (on_rx_packet-Keeps lib env pkt n s)))
