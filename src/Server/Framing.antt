-- ===== src/Server/Framing.antt =====
-- sendFrame and the read loop of serveClient in sdr-node/src/companion_server.cpp: frames are cut
-- out of a stream of bytes whatever the chunks in which it comes.
pub mod Stream
pub mod Resync
use meshcore_open_sdr.Shared.{
  List, Option, [], none, not, some, suc, zero, ℕ, ◌%◌, ◌*◌, ◌+◌, ◌/◌, ◌^◌, ◌||◌, ◌∷◌,
}
use meshcore_open_sdr.Shared.Lists.{drop, length, take}
use meshcore_open_sdr.Shared.Tests.{if◌then◌else◌, ltb, ◌==◌}
use meshcore_open_sdr.Shared.Text.{Bytes, is_empty}

abbrev pub frame_to_node : ℕ
frame_to_node = 0x3C

abbrev pub frame_to_app : ℕ
frame_to_app = 0x3E

abbrev pub max_payload : ℕ
max_payload = 172

-- What sendFrame writes; `none` where it refuses the payload.
unfoldable pub send_frame : Bytes → Option Bytes
send_frame payload =
    if is_empty payload || ltb max_payload (length payload)
    then none
    else some (frame_to_app ∷ length payload % 256 ∷ (length payload / 2 ^ 8) ∷ payload)

-- One round of the loop on what is left of the buffer: a byte is skipped (no start byte, or a
-- length that no frame has), the loop ends, or a frame is cut off.
pub data Round : Type 0 where
  skip : Bytes → Round
  stop : Round
  frame : Bytes → Bytes → Round

unfoldable pub round : Bytes → Round
round (a ∷ b ∷ c ∷ rest) =
    let len = b + c * 2 ^ 8 in
    if not (a == frame_to_node)
    then skip (b ∷ c ∷ rest)
    else if ltb max_payload len
    then skip (b ∷ c ∷ rest)
    else if ltb (length rest) len
    then stop
    else frame (take len rest) (drop len rest)
round buf = stop

-- The frames of a buffer, in order, and what stays in the buffer for the next chunk.
abbrev pub add_frame : Bytes → List Bytes × Bytes → List Bytes × Bytes
add_frame f (fs, rest) = (f ∷ fs, rest)

unfoldable pub drain : ℕ → Bytes → List Bytes × Bytes
unfolding round
drain zero buf = ([], buf)
drain (suc fuel) buf = elim (round buf) [
  | skip rest ↦ drain fuel rest
  | stop ↦ ([], buf)
  | frame f rest ↦ add_frame f (drain fuel rest)
]

-- Each round but the last takes a byte at least.
unfoldable pub scan : Bytes → List Bytes × Bytes
unfolding drain
scan buf = drain (length buf) buf

-- The frame that the app writes for a payload, as companion_server.h describes it.
unfoldable pub app_frame : Bytes → Bytes
app_frame payload = frame_to_node ∷ length payload % 256 ∷ (length payload / 2 ^ 8) ∷ payload
