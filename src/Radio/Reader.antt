-- ===== src/Radio/Reader.antt =====
-- SdrRadio::readPipe of sdr-node/src/radio_sdr.cpp: the lines of lora_rx, a line "rx cfg:" with the
-- circumstances of a frame and a line "rx ok:" with the frame itself.
pub mod Pairing
use meshcore_open_sdr.Shared.{List, Option, [], none, some, ℕ, ◌%◌, ◌&&◌, ◌++◌, ◌+◌, ◌^◌, ◌||◌, ◌∷◌}
use meshcore_open_sdr.Node.Loading.{text_at, word_at}
use meshcore_open_sdr.Node.State.{RxPacket}
use meshcore_open_sdr.Shared.Decimal.{has_prefix}
use meshcore_open_sdr.Shared.Int.{pos, ℤ}
use meshcore_open_sdr.Shared.Lists.{drop, length}
use meshcore_open_sdr.Shared.Scan.{
  Directive, Scanned, blanks, bytes, fgets_all, real, scan_with, signed, unsigned,
}
use meshcore_open_sdr.Shared.Tests.{if◌then◌else◌, leb, ◌==◌}
use meshcore_open_sdr.Shared.Text.{Str, codes, is_empty}

-- Floating-point numbers: how much of a text is one, and what it means in hundredths of a decibel
-- or of a hertz, and in microseconds.
pub record Reals : Type 0 where
  pub cut : Str → Option (Str × Str)
  pub hundredths : Str → ℤ
  pub micros : Str → ℕ

abbrev pub no_packet : RxPacket
no_packet = record { hex = []; freq = 0; sf = 0; bw = 0; snr = pos 0; cfo = pos 0; time = 0 }

-- "rx cfg: freq=%u sf=%d bw=%u snr=%f cfo=%f time=%lf"
unfoldable pub cfg_format : List Directive
cfg_format =
    bytes (codes "rx")
    ++ ((blanks ∷ bytes (codes "cfg:"))
        ++ ((blanks ∷ bytes (codes "freq="))
            ++ ((unsigned ∷ blanks ∷ bytes (codes "sf="))
                ++ ((signed ∷ blanks ∷ bytes (codes "bw="))
                    ++ ((unsigned ∷ blanks ∷ bytes (codes "snr="))
                        ++ ((real ∷ blanks ∷ bytes (codes "cfo="))
                            ++ ((real ∷ blanks ∷ bytes (codes "time=")) ++ (real ∷ []))))))))

module _ (reals : Reals) where
  -- The time is 0 where only the first five conversions succeed.
  abbrev pub packet_of_values : List Scanned → RxPacket
  packet_of_values vs = record {
    hex = [];
    freq = word_at vs 0;
    sf = word_at vs 1;
    bw = word_at vs 2;
    snr = reals.hundredths (text_at vs 3);
    cfo = reals.hundredths (text_at vs 4);
    time = if leb 6 (length vs) then reals.micros (text_at vs 5) else 0;
  }

  unfoldable pub packet_of_cfg : Str → Option RxPacket
  packet_of_cfg line =
      let vs = scan_with reals.cut cfg_format line in
      if leb 5 (length vs) then some (packet_of_values vs) else none

-- `hex.back() == '\n' || hex.back() == '\r' || hex.back() == ' '`, popped while it holds.
unfoldable pub trim_end : Str → Str
trim_end [] = []
trim_end (c ∷ s) =
    let rest = trim_end s in
    if is_empty rest && (c == 10 || c == 13 || c == b' ') then [] else c ∷ rest

-- The variables of readPipe, and the counters that it writes; `pending` is `none` while `have_cfg`
-- is false.
pub record PipeState : Type 0 where
  pub pending : Option RxPacket
  pub rx_count : ℕ
  pub last_rx_time : ℕ

abbrev pub packet_or_default : Option RxPacket → RxPacket
packet_or_default none = no_packet
packet_or_default (some p) = p

-- The packet for the handler, if the line holds one.
abbrev pub on_ok : Str → PipeState → PipeState × List RxPacket
on_ok hex st =
    let p = record (packet_or_default st.pending) { hex = hex } in
    if is_empty hex then (record st { pending = none }, []) else (
      record { pending = none; rx_count = (st.rx_count + 1) % 2 ^ 64; last_rx_time = p.time },
      p ∷ [],
    )

abbrev pub on_cfg : Option RxPacket → PipeState → PipeState × List RxPacket
on_cfg none st = (st, [])
on_cfg (some p) st = (record st { pending = some p }, [])

unfoldable pub read_line : Reals → Str → PipeState → PipeState × List RxPacket
read_line reals line st =
    if has_prefix (codes "rx cfg:") line
    then on_cfg (packet_of_cfg reals line) st
    else if has_prefix (codes "rx ok: ") line
    then on_ok (trim_end (drop 7 line)) st
    else (st, [])

-- The loop over the lines that are read before the pipe ends or the radio is stopped, with the
-- packets in the order in which the handler gets them.
unfoldable pub read_lines : Reals → List Str → PipeState → PipeState × List RxPacket
read_lines reals [] st = (st, [])
read_lines reals (l ∷ ls) st =
    let (st', here) = read_line reals l st in
    let (st'', later) = read_lines reals ls st' in (st'', here ++ later)

-- `readPipe` on what the pipe gives, in a buffer of 16384 bytes.
unfoldable pub read_pipe : Reals → Str → ℕ → ℕ → PipeState × List RxPacket
read_pipe reals s rx_count last_rx_time =
    read_lines reals (fgets_all 16384 s)
      (record { pending = none; rx_count = rx_count; last_rx_time = last_rx_time })
