-- ===== src/Node/Datagrams.antt =====
-- The control, channel data and trace packets that the app sends, cases of handleCommand in
-- sdr-node/src/node.cpp.
use meshcore_open_sdr.Shared.{[], none, not, some, ℕ, ◌%◌, ◌*◌, ◌++◌, ◌+◌, ◌-◌, ◌/◌, ◌^◌, ◌||◌, ◌∷◌}
use meshcore_open_sdr.Library.{Library, PayloadType, RouteType}
use meshcore_open_sdr.Node.Contacts.{no_channel}
use meshcore_open_sdr.Node.Queues.{enqueue_tx, hex_of, mark_seen}
use meshcore_open_sdr.Node.Sending.{direct_packet, flood_packet, path_bytes_of}
use meshcore_open_sdr.Node.State.{Ambient, Node, Outcome, clock_us, err_frame, ok_frame, reply}
use meshcore_open_sdr.Shared.Lists.{drop, get_or, length}
use meshcore_open_sdr.Shared.Map.{Map, insert, nat_key, str_key}
use meshcore_open_sdr.Shared.Tests.{if◌then◌else◌, leb, ltb, ◌==◌}
use meshcore_open_sdr.Shared.Text.{Bytes, is_empty}
use meshcore_open_sdr.Wire.{get_u32, slice, u32}

-- CMD_SEND_CONTROL_DATA: zero-hop, and not marked as seen.
unfoldable pub send_control_data : Library → Node → Bytes → Outcome
send_control_data lib n f =
    if ltb (length f) 2 || ltb (get_or f 1 0) 128
    then reply n (err_frame 6)
    else elim (lib.build_packet RouteType.direct PayloadType.control (drop 1 f) none) [
      | none ↦ reply n (err_frame 4)
      | some bytes ↦ reply (enqueue_tx (hex_of lib bytes) n) ok_frame
    ]

-- CMD_SEND_CHANNEL_DATA from the data type on, which stands `off` bytes into the frame.
unfoldable pub send_channel_data_at : Library → Ambient → Node → Bytes → ℕ → Outcome
send_channel_data_at lib env n f off =
    let idx = get_or f 1 0 in
    let len = get_or f 2 0 in
    let ch = get_or n.channels idx no_channel in
    let data_type = get_or f off 0 + get_or f (off + 1) 0 * 2 ^ 8 in
    if ltb (length f) (off + 2)
    then reply n (err_frame 6)
    else if leb (length n.channels) idx || is_empty ch.key_hex
    then reply n (err_frame 2)
    else elim (lib.build_group_data ch.key_hex data_type (drop (off + 2) f)) [
      | none ↦ reply n (err_frame 4)
      | some payload ↦
          elim (if len == 0xFF
            then flood_packet lib n PayloadType.group_data payload
            else direct_packet lib PayloadType.group_data payload (slice 3 (path_bytes_of len) f)
                len) [
                  | none ↦ reply n (err_frame 4)
                  | some bytes ↦
                      reply
                        (enqueue_tx (hex_of lib bytes)
                          (mark_seen (hex_of lib payload) (clock_us env) n))
                        ok_frame
                ]
    ]

-- [62][channel][path_len][path?][type 2][data]; 0xFF for the length stands for no path.
unfoldable pub send_channel_data : Library → Ambient → Node → Bytes → Outcome
send_channel_data lib env n f =
    let len = get_or f 2 0 in
    if ltb (length f) 5
    then reply n (err_frame 6)
    else if len == 0xFF
    then send_channel_data_at lib env n f 3
    else if ltb (length f) (3 + path_bytes_of len + 2)
    then reply n (err_frame 6)
    else send_channel_data_at lib env n f (3 + path_bytes_of len)

-- `sentTraces_[tag] = now; if (size > 32) erase(begin())`
unfoldable pub note_trace : ℕ → ℕ → Map ℕ ℕ → Map ℕ ℕ
note_trace tag at traces =
    let traces' = insert tag at traces in
    if ltb 32 (length traces') then drop 1 traces' else traces'

-- CMD_SEND_TRACE_PATH: [36][tag 4][auth 4][flags][hashes]
unfoldable pub send_trace_path : Library → Ambient → Node → Bytes → Outcome
unfolding get_u32
send_trace_path lib env n f =
    let hash_size = 2 ^ (get_or f 9 0 % 4) in
    let path_bytes = length f - 10 in
    let tag = get_u32 f 1 in
    if ltb (length f) 10
    then reply n (err_frame 6)
    else if not (path_bytes % hash_size == 0) || ltb 63 (path_bytes / hash_size)
    then reply n (err_frame 6)
    else elim (lib.build_packet RouteType.direct PayloadType.trace (drop 1 f) none) [
      | none ↦ reply n (err_frame 4)
      | some bytes ↦
          reply
            (record (enqueue_tx (hex_of lib bytes) n) {
              sent_traces = note_trace tag (clock_us env) n.sent_traces;
            })
            ((6 ∷ 0 ∷ []) ++ (u32 tag ++ u32 (4000 + 2000 * (path_bytes / hash_size))))
    ]
