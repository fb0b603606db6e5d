-- ===== src/Node/Connection/Packets.antt =====
-- onRxPacket of sdr-node/src/node.cpp as a whole, where the app is not connected.
use meshcore_open_sdr.Shared.{ap, false, not, some, ◌&&◌, ◌+◌, ◌∙◌, ◌≡◌}
use meshcore_open_sdr.Library.{Decoded, Library, PayloadType}
use meshcore_open_sdr.Node.Air.{Settled}
use meshcore_open_sdr.Node.Air.Packets.{seen_before-kept}
use meshcore_open_sdr.Node.Connection.Pushes.{
  Silent, on_ack-Silent, on_advert-Silent, on_control-Silent, on_group_data-Silent,
  on_group_text-Silent, on_path-Silent, on_response-Silent, on_text_message-Silent, on_trace-Silent,
  push-Silent, pushed_first-Silent, untold,
}
use meshcore_open_sdr.Node.Queues.{seen_before}
use meshcore_open_sdr.Node.Receive.{
  count_airtime, monitor, on_decoded, on_payload, on_rx_packet, payload_key,
}
use meshcore_open_sdr.Node.State.{Ambient, Node, Outcome, RxPacket}
use meshcore_open_sdr.Shared.Lists.{length}
use meshcore_open_sdr.Shared.Tests.{
  Returns, Returns-bind, Returns-some, Returns-then, if_elim, leb, returns,
}
use meshcore_open_sdr.Shared.Text.{is_empty}
use mathlib.Core.Path.{subst}

module _ (lib : Library) (env : Ambient) (pkt : RxPacket) where
  on_payload-Silent :
      (d : Decoded) (n : Node) (kind : PayloadType)
      → n.app ≡ false
      → Returns Silent (on_payload lib env pkt d n kind)
  unfolding on_payload
  on_payload-Silent d n PayloadType.group_text h =
      Returns-bind (lib.hex_to_bytes d.payload_raw)
        (λ b. returns (on_group_text-Silent lib env pkt d n b h))
  on_payload-Silent d n PayloadType.advert h = on_advert-Silent lib env pkt d n h
  on_payload-Silent d n PayloadType.text_message h =
      Returns-bind (lib.hex_to_bytes d.payload_raw)
        (λ b. on_text_message-Silent lib env pkt d n b h)
  on_payload-Silent d n PayloadType.control h =
      Returns-bind (lib.hex_to_bytes d.payload_raw)
        (λ b. returns (on_control-Silent lib env pkt d n b h))
  on_payload-Silent d n PayloadType.group_data h =
      Returns-bind (lib.hex_to_bytes d.payload_raw)
        (λ b. returns (on_group_data-Silent lib env pkt d n b h))
  on_payload-Silent d n PayloadType.trace h =
      Returns-bind (lib.hex_to_bytes d.payload_raw) (λ b. on_trace-Silent lib env pkt d n b h)
  on_payload-Silent d n PayloadType.response h =
      Returns-bind (lib.hex_to_bytes d.payload_raw)
        (λ b. returns (on_response-Silent lib env pkt d n b h))
  on_payload-Silent d n PayloadType.path_return h =
      Returns-bind (lib.hex_to_bytes d.payload_raw)
        (λ b. returns (on_path-Silent lib env pkt d n b h))
  on_payload-Silent d n PayloadType.ack h =
      Returns-bind (lib.hex_to_bytes d.payload_raw)
        (λ b. returns (on_ack-Silent lib env pkt d n b h))
  on_payload-Silent d n _ h = returns (untold h)

  on_decoded-Silent :
      (d : Decoded) (n : Node) → n.app ≡ false → Returns Silent (on_decoded lib env pkt d n)
  unfolding on_decoded
  on_decoded-Silent d n h =
      let h' = ap Settled.app (seen_before-kept (payload_key d) pkt.time n).1 ∙ h in
      if_elim (Returns Silent) (not d.is_valid && is_empty d.payload_raw) (returns (untold h)) (
        if_elim (Returns Silent) (seen_before (payload_key d) pkt.time n).0 (returns (untold h'))
          (on_payload-Silent d _ d.payload_type h'))

  monitor-Silent : (n : Node) → n.app ≡ false → Returns Silent (monitor lib pkt n)
  unfolding monitor
  monitor-Silent n h =
      if_elim (Returns Silent) n.cfg.log_rx_data
        (Returns-bind (lib.hex_to_bytes pkt.hex) (λ raw.
          returns (if_elim Silent (leb (length raw + 3) 172) (push-Silent n _ h) (untold h))))
        (returns (untold h))

  pub on_rx_packet-Silent :
      (n : Node) (o : Outcome) → on_rx_packet lib env pkt n ≡ some o → n.app ≡ false → Silent o
  unfolding on_rx_packet
  on_rx_packet-Silent n o e h = Returns-some (
      subst (Returns Silent) e (
        Returns-then (monitor lib pkt (record n { last_snr = pkt.snr }))
          (monitor-Silent (record n { last_snr = pkt.snr }) h)
          (λ heard k.
            Returns-then
              (on_decoded lib env pkt (lib.decode pkt.hex) (count_airtime pkt heard.node))
              (on_decoded-Silent (lib.decode pkt.hex) (count_airtime pkt heard.node) k.closed)
              (λ handled k'. returns (pushed_first-Silent heard.pushes handled k.no_pushes k')))))
