-- ===== src/Server/Framing/Resync.antt =====
-- What the read loop of serveClient does with noise, and how much it can leave in its buffer.
use meshcore_open_sdr.Shared.{List, [], arith, ℕ, ◌*◌, ◌++◌, ◌+◌, ◌<◌, ◌^◌, ◌∷◌, ◌≡◌, ◌≢◌, ◌≤◌}
use meshcore_open_sdr.Server.Framing.{
  app_frame, frame, frame_to_node, max_payload, round, scan, skip, stop,
}
use meshcore_open_sdr.Server.Framing.Stream.{
  Drains, Drains-app_stream, Drains-scan, app_stream, cuts, ends, scan-Drains, skips,
}
use meshcore_open_sdr.Shared.Lists.{All, length, length-append, length-take}
use meshcore_open_sdr.Shared.Text.{Bytes}

round_noise :
    (a : ℕ) (buf : Bytes) → a ≢ frame_to_node → 2 ≤ length buf → round (a ∷ buf) ≡ skip buf
unfolding round
round_noise a [] n h = absurd (omega arith)
round_noise a (b ∷ []) n h = absurd (omega arith)
round_noise a (b ∷ c ∷ rest) n h = ground arith

Drains-noise :
    (noise buf : Bytes) {fs : List Bytes} {rest : Bytes}
    → All (λ b. b ≢ frame_to_node) noise
    → 2 ≤ length buf
    → Drains buf fs rest
    → Drains (noise ++ buf) fs rest
Drains-noise [] buf h l d = d
Drains-noise (a ∷ noise) buf h l d =
    skips (round_noise a (noise ++ buf) h.0 (omega (arith, length-append noise buf)))
      (Drains-noise noise buf h.1 l d)

-- Bytes without a start byte are skipped up to the next frame. From there on every frame of at
-- most 172 bytes is found, in order, and the loop goes on behind the last.
pub scan-noise :
    (noise more : Bytes) (f : Bytes) (fs : List Bytes)
    → All (λ b. b ≢ frame_to_node) noise
    → All (λ p. length p ≤ max_payload) (f ∷ fs)
    → scan (noise ++ (app_stream (f ∷ fs) ++ more)) ≡ ((f ∷ fs) ++ (scan more).0, (scan more).1)
scan-noise noise more f fs quiet_noise fit = Drains-scan (
    Drains-noise noise _ quiet_noise (long f)
      (Drains-app_stream (f ∷ fs) more fit (scan-Drains more)))
  where
    long : (f : Bytes) → 2 ≤ length (app_stream (f ∷ fs) ++ more)
    long f = unfold app_frame in omega arith

stop_short : (buf : Bytes) → round buf ≡ stop → length buf < 3 + max_payload
unfolding round
stop_short [] e = omega arith
stop_short (a ∷ []) e = omega arith
stop_short (a ∷ b ∷ []) e = omega arith
stop_short (a ∷ b ∷ c ∷ rest) e = ground arith

Drains-short :
    {buf : Bytes} {fs : List Bytes} {rest : Bytes}
    → Drains buf fs rest
    → (length rest < 3 + max_payload) × (round rest ≡ stop)
Drains-short (ends {buf} e) = (stop_short buf e, e)
Drains-short (skips e d) = Drains-short d
Drains-short (cuts e d) = Drains-short d

-- Whatever was received, less than the longest frame stays in the buffer, and one more round of the
-- loop there would end it: there is no byte to skip and no frame to cut off.
pub scan_left :
    (buf : Bytes) → (length (scan buf).1 < 3 + max_payload) × (round (scan buf).1 ≡ stop)
scan_left buf = Drains-short (scan-Drains buf)

frame_fits : (buf f mid : Bytes) → round buf ≡ frame f mid → length f ≤ max_payload
unfolding round
frame_fits [] f mid e = cc
frame_fits (a ∷ []) f mid e = cc
frame_fits (a ∷ b ∷ []) f mid e = cc
frame_fits (a ∷ b ∷ c ∷ rest) f mid e = ground (arith, length-take (b + c * 2 ^ 8) rest)

Drains-fit :
    {buf : Bytes} {fs : List Bytes} {rest : Bytes}
    → Drains buf fs rest
    → All (λ p. length p ≤ max_payload) fs
Drains-fit (ends e) = tt
Drains-fit (skips e d) = Drains-fit d
Drains-fit (cuts {buf} {f} {mid} e d) = (frame_fits buf f mid e, Drains-fit d)

pub scan_fit : (buf : Bytes) → All (λ p. length p ≤ max_payload) (scan buf).0
scan_fit buf = Drains-fit (scan-Drains buf)
