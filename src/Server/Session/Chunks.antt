-- ===== src/Server/Session/Chunks.antt =====
-- A session does not depend on how the network cuts the app's bytes into chunks.
use meshcore_open_sdr.Shared.{List, [], inl, inr, refl, some, ◌++◌, ◌∷◌, ◌≡◌}
use meshcore_open_sdr.Library.{Library}
use meshcore_open_sdr.Node.Command.{handle_command}
use meshcore_open_sdr.Node.State.{Ambient}
use meshcore_open_sdr.Server.Framing.{scan}
use meshcore_open_sdr.Server.Framing.Stream.{scan-append}
use meshcore_open_sdr.Server.Session.{Session, on_chunk, on_frame, on_frames, speak}
use meshcore_open_sdr.Shared.Tests.{Option-cases, ◌>>=◌}
use meshcore_open_sdr.Shared.Text.{Bytes}
use mathlib.Core.List.{append_assoc}

on_frames-buf :
    (lib : Library) (env : Ambient) (fs : List Bytes) (s : Session) (b : Bytes)
    → on_frames lib env fs (record s { buf = b })
      ≡ (on_frames lib env fs s >>= λ s'. some (record s' { buf = b }))
unfolding on_frames
on_frames-buf lib env [] s b = refl
on_frames-buf lib env (f ∷ fs) s b = elim (Option-cases (handle_command lib env (speak s) f)) [
  | inl e ↦ rw (e, on_frame)
  | inr (o, e) ↦ rw (e, on_frame) (on_frames-buf lib env fs _ b)
]

on_frames-append :
    (lib : Library) (env : Ambient) (fs gs : List Bytes) (s : Session)
    → on_frames lib env (fs ++ gs) s ≡ (on_frames lib env fs s >>= λ s'. on_frames lib env gs s')
unfolding on_frames
on_frames-append lib env [] gs s = refl
on_frames-append lib env (f ∷ fs) gs s = elim (Option-cases (on_frame lib env f s)) [
  | inl e ↦ rw e
  | inr (s', e) ↦ rw e (on_frames-append lib env fs gs s')
]

-- Two chunks read one after the other leave the session, the node and everything written as one
-- read of both would; and an exception leaves the handlers in the one case when it does in the
-- other.
pub on_chunk-append :
    (lib : Library) (env : Ambient) (a b : Bytes) (s : Session)
    → on_chunk lib env (a ++ b) s ≡ (on_chunk lib env a s >>= λ s'. on_chunk lib env b s')
unfolding on_chunk
on_chunk-append lib env a b s =
    let fs = (scan (s.buf ++ a)).0 in
    let left = (scan (s.buf ++ a)).1 in
    rw (← append_assoc, scan-append (s.buf ++ a) b, on_frames-append)
      (elim (Option-cases (on_frames lib env fs s)) [
        | inl e ↦ rw e
        | inr (s', e) ↦
            rw (e, on_frames-buf lib env _ s' left)
              (elim (Option-cases (on_frames lib env (scan (left ++ b)).0 s')) [
                | inl e' ↦ rw e'
                | inr (s'', e') ↦ rw e'
              ])
      ])
