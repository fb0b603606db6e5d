-- ===== src/Radio/Reader/Pairing.antt =====
-- Which "rx cfg:" line SdrRadio::readPipe of sdr-node/src/radio_sdr.cpp takes for a frame.
use meshcore_open_sdr.Shared.{
  Bool, List, Option, [], arith, false, inl, inr, none, not, refl, some, sym, true, ℕ, ◌%◌, ◌&&◌,
  ◌++◌, ◌+◌, ◌<◌, ◌^◌, ◌∷◌, ◌≡◌,
}
use meshcore_open_sdr.Node.State.{RxPacket}
use meshcore_open_sdr.Radio.Reader.{
  PipeState, Reals, on_cfg, on_ok, packet_of_cfg, packet_or_default, read_line, read_lines,
  read_pipe, trim_end,
}
use meshcore_open_sdr.Shared.Decimal.{has_prefix}
use meshcore_open_sdr.Shared.Lists.{drop, length, length-append}
use meshcore_open_sdr.Shared.Scan.{fgets_all}
use meshcore_open_sdr.Shared.Tests.{Bool-cases, if◌then◌else◌}
use meshcore_open_sdr.Shared.Text.{Str, codes, is_empty}
use mathlib.Core.Path.{ap₂, subst}

abbrev is_cfg : Str → Bool
is_cfg line = has_prefix (codes "rx cfg:") line

abbrev is_ok : Str → Bool
is_ok line = not (is_cfg line) && has_prefix (codes "rx ok: ") line

module _ (reals : Reals) where
  -- The circumstances that hold after some lines, the latest first: those of the last line that
  -- could be read, unless a frame came after it.
  unfoldable pub announced : List Str → Option RxPacket
  announced [] = none
  announced (l ∷ before) =
      if is_cfg l
      then elim (packet_of_cfg reals l) [ none ↦ announced before | some p ↦ some p ]
      else if is_ok l
      then none
      else announced before

  -- The frame of a line, with the circumstances that the lines before it give.
  abbrev pub framed : List Str → Str → List RxPacket
  framed before l =
      if is_ok l && not (is_empty (trim_end (drop 7 l)))
      then record (packet_or_default (announced before)) { hex = trim_end (drop 7 l) } ∷ []
      else []

  -- All frames of some lines behind others.
  unfoldable pub frames : List Str → List Str → List RxPacket
  frames before [] = []
  frames before (l ∷ ls) = framed before l ++ frames (l ∷ before) ls

  -- What one line does, against that: the packet that is handed on, what is remembered, the count.
  abbrev Agrees : List Str → Str → PipeState → PipeState × List RxPacket → Type 0
  Agrees before l st r =
      (r.1 ≡ framed before l)
      × (r.0.pending ≡ announced (l ∷ before))
      × (r.0.rx_count ≡ (st.rx_count + length (framed before l)) % 2 ^ 64)

  module _ (before : List Str) (l : Str) (st : PipeState) (small : st.rx_count < 2 ^ 64)
      (h : st.pending ≡ announced before) where
    no_frame : (st.rx_count + 0) % 2 ^ 64 ≡ st.rx_count
    no_frame = omega arith

    on_cfg-Agrees :
        (o : Option RxPacket)
        → packet_of_cfg reals l ≡ o
        → is_cfg l ≡ true
        → Agrees before l st (on_cfg o st)
    unfolding announced
    on_cfg-Agrees none e c = rw (c, e, h, no_frame) (refl, refl, refl)
    on_cfg-Agrees (some p) e c = rw (c, e, no_frame) (refl, refl, refl)

    on_ok-Agrees :
        is_cfg l ≡ false
        → has_prefix (codes "rx ok: ") l ≡ true
        → Agrees before l st (on_ok (trim_end (drop 7 l)) st)
    unfolding announced
    on_ok-Agrees c k = elim (Bool-cases (is_empty (trim_end (drop 7 l)))) [
      | inl e ↦ rw (c, k, e, no_frame) (refl, refl, refl)
      | inr e ↦ rw (c, k, e, h) (refl, refl, refl)
    ]

    other-Agrees :
        is_cfg l ≡ false → has_prefix (codes "rx ok: ") l ≡ false → Agrees before l st (st, [])
    unfolding announced
    other-Agrees c k = rw (c, k, no_frame) (refl, h, refl)

    read_line-Agrees : Agrees before l st (read_line reals l st)
    unfolding read_line
    read_line-Agrees = elim (Bool-cases (is_cfg l)) [
      | inl c ↦
          let e : read_line reals l st ≡ on_cfg (packet_of_cfg reals l) st = rw c in
          subst (λ r. Agrees before l st r) (sym e) (on_cfg-Agrees (packet_of_cfg reals l) refl c)
      | inr c ↦ elim (Bool-cases (has_prefix (codes "rx ok: ") l)) [
        | inl k ↦
            let e : read_line reals l st ≡ on_ok (trim_end (drop 7 l)) st = rw (c, k) in
            subst (λ r. Agrees before l st r) (sym e) (on_ok-Agrees c k)
        | inr k ↦
            let e : read_line reals l st ≡ (st, []) = rw (c, k) in
            subst (λ r. Agrees before l st r) (sym e) (other-Agrees c k)
      ]
    ]

  read_lines-frames :
      (before ls : List Str) (st : PipeState)
      → st.rx_count < 2 ^ 64
      → st.pending ≡ announced before
      → ((read_lines reals ls st).1 ≡ frames before ls)
        × ((read_lines reals ls st).0.rx_count ≡ (st.rx_count + length (frames before ls)) % 2 ^ 64)
  unfolding read_lines frames
  read_lines-frames before [] st small h = (refl, omega arith)
  read_lines-frames before (l ∷ ls) st small h =
      let (packet, pending, count) = read_line-Agrees before l st small h in
      let bounded : (read_line reals l st).0.rx_count < 2 ^ 64 = omega (arith, count) in
      let (later, total) =
        read_lines-frames (l ∷ before) ls (read_line reals l st).0 bounded pending in
      (
        ap₂ ◌++◌ packet later,
        omega (arith, total, count, length-append (framed before l) (frames (l ∷ before) ls)),
      )

  -- Every frame that the receiver prints is handed on once, in order, without the line's end, and
  -- with the circumstances of the last "rx cfg:" line that could be read since the frame before it,
  -- or with none where there is no such line. The packet count grows by as many, modulo 2 ^ 64.
  pub read_pipe-frames :
      (s : Str) (rx_count last_rx_time : ℕ)
      → rx_count < 2 ^ 64
      → ((read_pipe reals s rx_count last_rx_time).1 ≡ frames [] (fgets_all 16384 s))
        × ((read_pipe reals s rx_count last_rx_time).0.rx_count
            ≡ (rx_count + length (frames [] (fgets_all 16384 s))) % 2 ^ 64)
  unfolding read_pipe announced
  read_pipe-frames s rx_count last_rx_time small =
      read_lines-frames [] (fgets_all 16384 s)
        (record { pending = none; rx_count = rx_count; last_rx_time = last_rx_time }) small refl
