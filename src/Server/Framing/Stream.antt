-- ===== src/Server/Framing/Stream.antt =====
-- The read loop ends, finds the frames of a stream, and does not depend on how it is chunked.
use meshcore_open_sdr.Shared.{
  List, [], ap, arith, inl, inr, refl, suc, zero, ℕ, ◌*◌, ◌++◌, ◌+◌, ◌<◌, ◌^◌, ◌∷◌, ◌≡◌, ◌≤◌, ◌⊎◌,
}
use meshcore_open_sdr.Server.Framing.{
  Round, add_frame, app_frame, drain, frame, max_payload, round, scan, skip, stop,
}
use meshcore_open_sdr.Shared.Lists.{
  All, drop-append, drop-append_le, length, length-append, length-drop, take-append, take-append_le,
}
use meshcore_open_sdr.Shared.Text.{Bytes}
use mathlib.Core.List.{append_assoc}
use mathlib.Core.Path.{subst}

abbrev Smaller : Bytes → Round → Type 0
Smaller buf (skip rest) = length rest < length buf
Smaller buf stop = Unit {0}
Smaller buf (frame f rest) = length rest < length buf

round-Smaller : (buf : Bytes) → Smaller buf (round buf)
unfolding round
round-Smaller [] = tt
round-Smaller (a ∷ []) = tt
round-Smaller (a ∷ b ∷ []) = tt
round-Smaller (a ∷ b ∷ c ∷ rest) = ground (arith, length-drop (b + c * 2 ^ 8) rest)

-- The cases of a round, with the equation.
pub round_cases :
    (buf : Bytes)
    → ((rest : Bytes) × (round buf ≡ skip rest) × (length rest < length buf))
      ⊎ (round buf ≡ stop)
      ⊎ ((f : Bytes) × (rest : Bytes) × (round buf ≡ frame f rest) × (length rest < length buf))
round_cases buf = go (round buf) refl (round-Smaller buf)
  where
    go :
        (r : Round)
        → round buf ≡ r
        → Smaller buf r
        → ((rest : Bytes) × (round buf ≡ skip rest) × (length rest < length buf))
          ⊎ (round buf ≡ stop)
          ⊎ ((f : Bytes) × (rest : Bytes) × (round buf ≡ frame f rest) × (length rest < length buf))
    go (skip rest) e h = inl (rest, e, h)
    go stop e h = inr (inl e)
    go (frame f rest) e h = inr (inr (f, rest, e, h))

-- What the loop does to a buffer: the frames that it cuts out and the bytes that it leaves.
pub data Drains : Bytes → List Bytes → Bytes → Type 0 where
  ends : {buf : Bytes} → round buf ≡ stop → Drains buf [] buf
  skips :
      {buf mid : Bytes} {fs : List Bytes} {rest : Bytes}
      → round buf ≡ skip mid
      → Drains mid fs rest
      → Drains buf fs rest
  cuts :
      {buf f mid : Bytes} {fs : List Bytes} {rest : Bytes}
      → round buf ≡ frame f mid
      → Drains mid fs rest
      → Drains buf (f ∷ fs) rest

round-empty : round [] ≡ stop
unfolding round
round-empty = refl

drain-Drains :
    (fuel : ℕ) (buf : Bytes) → length buf ≤ fuel → Drains buf (drain fuel buf).0 (drain fuel buf).1
unfolding drain
drain-Drains zero [] h = ends round-empty
drain-Drains zero (b ∷ buf) h = absurd (omega arith)
drain-Drains (suc fuel) buf h = elim (round_cases buf) [
  | inl (mid, e, l) ↦ rw (e, drain) (skips e (drain-Drains fuel mid (omega arith)))
  | inr (inl e) ↦ rw (e, drain) (ends e)
  | inr (inr (f, mid, e, l)) ↦ rw (e, drain) (cuts e (drain-Drains fuel mid (omega arith)))
]

-- On every buffer the loop ends within as many rounds as there are bytes.
pub scan-Drains : (buf : Bytes) → Drains buf (scan buf).0 (scan buf).1
unfolding scan
scan-Drains buf = drain-Drains (length buf) buf (omega arith)

skip_smaller : (buf mid : Bytes) → round buf ≡ skip mid → length mid < length buf
skip_smaller buf mid e = subst (Smaller buf) e (round-Smaller buf)

frame_smaller : (buf f mid : Bytes) → round buf ≡ frame f mid → length mid < length buf
frame_smaller buf f mid e = subst (Smaller buf) e (round-Smaller buf)

-- The loop does one thing only to a buffer.
Drains-drain :
    {buf : Bytes} {fs : List Bytes} {rest : Bytes}
    → Drains buf fs rest
    → (fuel : ℕ) → length buf ≤ fuel
    → drain fuel buf ≡ (fs, rest)
unfolding drain
Drains-drain (ends e) zero h = refl
Drains-drain (ends e) (suc fuel) h = rw (e, drain)
Drains-drain (skips {buf} {mid} e d) zero h = absurd (omega (arith, skip_smaller buf mid e))
Drains-drain (skips {buf} {mid} e d) (suc fuel) h =
    rw (e, drain) (Drains-drain d fuel (omega (arith, skip_smaller buf mid e)))
Drains-drain (cuts {buf} {f} {mid} e d) zero h = absurd (omega (arith, frame_smaller buf f mid e))
Drains-drain (cuts {buf} {f} {mid} e d) (suc fuel) h =
    rw (e, drain)
      (ap (add_frame f) (Drains-drain d fuel (omega (arith, frame_smaller buf f mid e))))

pub Drains-scan :
    {buf : Bytes} {fs : List Bytes} {rest : Bytes} → Drains buf fs rest → scan buf ≡ (fs, rest)
unfolding scan
Drains-scan {buf} d = Drains-drain d (length buf) (omega arith)

-- Bytes that come later do not change what a round does, unless it waits for them.
round-append_skip :
    (buf mid more : Bytes) → round buf ≡ skip mid → round (buf ++ more) ≡ skip (mid ++ more)
unfolding round
round-append_skip [] mid more e = cc
round-append_skip (a ∷ []) mid more e = cc
round-append_skip (a ∷ b ∷ []) mid more e = cc
round-append_skip (a ∷ b ∷ c ∷ rest) mid more e = ground (arith, length-append rest more)

round-append_frame :
    (buf f mid more : Bytes) → round buf ≡ frame f mid → round (buf ++ more) ≡ frame f (mid ++ more)
unfolding round
round-append_frame [] f mid more e = cc
round-append_frame (a ∷ []) f mid more e = cc
round-append_frame (a ∷ b ∷ []) f mid more e = cc
round-append_frame (a ∷ b ∷ c ∷ rest) f mid more e = ground (
  arith,
  length-append rest more,
  take-append_le (b + c * 2 ^ 8) rest more,
  drop-append_le (b + c * 2 ^ 8) rest more,
)

Drains-append :
    {buf : Bytes} {fs : List Bytes} {rest : Bytes}
    → Drains buf fs rest
    → (more : Bytes) {gs : List Bytes} {left : Bytes} → Drains (rest ++ more) gs left
    → Drains (buf ++ more) (fs ++ gs) left
Drains-append (ends e) more d = d
Drains-append (skips {buf} {mid} e s) more d =
    skips (round-append_skip buf mid more e) (Drains-append s more d)
Drains-append (cuts {buf} {f} {mid} e s) more d =
    cuts (round-append_frame buf f mid more e) (Drains-append s more d)

-- Draining a chunk and then, with the next one behind what was left, the rest gives the frames
-- and the remainder of the two chunks in one.
pub scan-append :
    (buf more : Bytes)
    → scan (buf ++ more)
      ≡ ((scan buf).0 ++ (scan ((scan buf).1 ++ more)).0, (scan ((scan buf).1 ++ more)).1)
scan-append buf more = Drains-scan (Drains-append (scan-Drains buf) more (scan-Drains _))

-- A frame of at most 172 bytes, wherever it stands in the stream, is cut out whole.
round-app_frame :
    (payload more : Bytes)
    → length payload ≤ max_payload
    → round (app_frame payload ++ more) ≡ frame payload more
unfolding round app_frame
round-app_frame payload more h = ground (
  arith,
  length-append payload more,
  take-append (length payload) payload more refl,
  drop-append (length payload) payload more refl,
)

abbrev pub app_stream : List Bytes → Bytes
app_stream [] = []
app_stream (f ∷ fs) = app_frame f ++ app_stream fs

pub Drains-app_stream :
    (fs : List Bytes) (more : Bytes) {gs : List Bytes} {left : Bytes}
    → All (λ f. length f ≤ max_payload) fs
    → Drains more gs left
    → Drains (app_stream fs ++ more) (fs ++ gs) left
Drains-app_stream [] more h d = d
Drains-app_stream (f ∷ fs) more h d =
    rw append_assoc
      (cuts (round-app_frame f (app_stream fs ++ more) h.0) (Drains-app_stream fs more h.1 d))
