-- ===== src/Node/Receive.antt =====
-- onRxPacket of sdr-node/src/node.cpp: the raw monitor, the deduplication and the dispatch on the
-- type of a packet's payload. `none` is an exception of hexToBytes that leaves the handler.
use meshcore_open_sdr.Shared.{
  Bool, List, Option, [], false, not, some, true, ◌&&◌, ◌++◌, ◌+◌, ◌/◌, ◌∷◌,
}
use meshcore_open_sdr.Library.{Decoded, Library, PayloadType}
use meshcore_open_sdr.Node.Answers.{on_ack, on_path, on_response, on_text_message}
use meshcore_open_sdr.Node.Hearing.{
  on_advert, on_control, on_group_data, on_group_text, on_trace, or_no_hops, rssi_byte, snr_byte,
}
use meshcore_open_sdr.Node.Queues.{add_airtime, estimate_airtime, seen_before}
use meshcore_open_sdr.Node.State.{Ambient, Node, Outcome, RxPacket, push, pushed_first, quiet}
use meshcore_open_sdr.Shared.Lists.{length}
use meshcore_open_sdr.Shared.Tests.{if◌then◌else◌, leb, ◌>>=◌}
use meshcore_open_sdr.Shared.Text.{Bytes, Str, is_empty, to_lower}

-- PUSH_LOG_RX_DATA, for packets that fit a frame.
unfoldable pub monitor : Library → RxPacket → Node → Option Outcome
monitor lib pkt n =
    let fits = λ (raw : Bytes).
      if leb (length raw + 3) 172
      then push n ((0x88 ∷ snr_byte pkt ∷ rssi_byte pkt ∷ []) ++ raw)
      else quiet n in
    let logged : Option Outcome = (lib.hex_to_bytes pkt.hex >>= λ raw. some (fits raw)) in
    if n.cfg.log_rx_data then logged else some (quiet n)

abbrev pub lower_all : List Str → Str
lower_all [] = []
lower_all (h ∷ hs) = to_lower h ++ lower_all hs

abbrev pub is_trace : PayloadType → Bool
is_trace PayloadType.trace = true
is_trace kind = false

-- What a packet is known by: its payload, and for a trace the path too.
unfoldable pub payload_key : Decoded → Str
unfolding to_lower
payload_key d =
    if is_trace d.payload_type
    then to_lower d.payload_raw ++ lower_all (or_no_hops d.path)
    else to_lower d.payload_raw

unfoldable pub on_payload :
    Library → Ambient → RxPacket → Decoded → Node → PayloadType → Option Outcome
on_payload lib env pkt d n PayloadType.group_text = do
  payload ← lib.hex_to_bytes d.payload_raw
  some (on_group_text lib d n payload)
on_payload lib env pkt d n PayloadType.advert = on_advert lib env pkt d n
on_payload lib env pkt d n PayloadType.text_message = do
  payload ← lib.hex_to_bytes d.payload_raw
  on_text_message lib env pkt d n payload
on_payload lib env pkt d n PayloadType.control = do
  payload ← lib.hex_to_bytes d.payload_raw
  some (on_control pkt d n payload)
on_payload lib env pkt d n PayloadType.group_data = do
  payload ← lib.hex_to_bytes d.payload_raw
  some (on_group_data lib pkt d n payload)
on_payload lib env pkt d n PayloadType.trace = do
  payload ← lib.hex_to_bytes d.payload_raw
  on_trace lib pkt d n payload
on_payload lib env pkt d n PayloadType.response = do
  payload ← lib.hex_to_bytes d.payload_raw
  some (on_response lib pkt n payload)
on_payload lib env pkt d n PayloadType.path_return = do
  payload ← lib.hex_to_bytes d.payload_raw
  some (on_path lib env pkt n payload)
on_payload lib env pkt d n PayloadType.ack = do
  payload ← lib.hex_to_bytes d.payload_raw
  some (on_ack pkt n payload)
on_payload lib env pkt d n kind = some (quiet n)

-- From the decoding on: an empty invalid packet and a payload heard of late are dropped.
unfoldable pub on_decoded : Library → Ambient → RxPacket → Decoded → Node → Option Outcome
unfolding seen_before payload_key
on_decoded lib env pkt d n =
    let (duplicate, n') = seen_before (payload_key d) pkt.time n in
    let handled = on_payload lib env pkt d n' d.payload_type in
    if not d.is_valid && is_empty d.payload_raw
    then some (quiet n)
    else if duplicate
    then some (quiet n')
    else handled

abbrev pub count_airtime : RxPacket → Node → Node
count_airtime pkt n = record n {
  rx_air = add_airtime n.rx_air (estimate_airtime n.cfg (length pkt.hex / 2));
}

unfoldable pub on_rx_packet : Library → Ambient → RxPacket → Node → Option Outcome
unfolding add_airtime estimate_airtime
on_rx_packet lib env pkt n = do
  heard ← monitor lib pkt (record n { last_snr = pkt.snr })
  handled ← on_decoded lib env pkt (lib.decode pkt.hex) (count_airtime pkt heard.node)
  some (pushed_first heard.pushes handled)
