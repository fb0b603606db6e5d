-- ===== src/Node/Run/Stopping.antt =====
-- The end of txWorker in sdr-node/src/node.cpp, for which the destructor of the node waits.
use meshcore_open_sdr.Shared.{
  Bool, List, Option, [], ap, arith, false, inl, inr, none, refl, some, suc, sym, true, ℕ, ◌++◌,
  ◌+◌, ◌∙◌, ◌∷◌, ◌≡◌, ◌≤◌, ◌⊎◌,
}
use meshcore_open_sdr.Library.{Library}
use meshcore_open_sdr.Node.Run.{
  Reach, Step, System, TxStep, advertises, begins, connects, continues, fetches, finishes, handles,
  hears, quits, stops, works,
}
use meshcore_open_sdr.Node.Run.Order.Line.{in_hand}
use meshcore_open_sdr.Node.Run.Transmitter.{TxRun, not_yet, works_on}
use meshcore_open_sdr.Shared.Lists.{length}
use meshcore_open_sdr.Shared.Tests.{if◌then◌else◌}
use meshcore_open_sdr.Shared.Text.{Str}
use mathlib.Core.List.{append-nil}

-- What the transmitter has taken from the queue: what it gave to the radio, and what it has in hand.
abbrev pub taken : System → List Str
taken s = s.given ++ in_hand s.on_air

-- The thread has ended, and the radio was given all that was taken.
pub record IsEnded (s u : System) : Type 0 where
  pub ended : u.tx_ended ≡ true
  pub hand_empty : u.on_air ≡ none
  pub taken_given : u.given ≡ taken s

TxStep-taken :
    {s t : System} → TxStep s t → s.tx_stop ≡ true → (taken t ≡ taken s) × (t.tx_stop ≡ true)
TxStep-taken (fetches s hex rest e idle going) h = cc
TxStep-taken (finishes s hex transmitted e) h =
    (append-nil (s.given ++ (hex ∷ [])) ∙ ap (λ o. s.given ++ in_hand o) (sym e), h)
TxStep-taken (quits s idle stopped running) h = (refl, h)

Step-taken :
    (lib : Library) {s t : System}
    → Step lib s t
    → s.tx_stop ≡ true
    → (taken t ≡ taken s) × (t.tx_stop ≡ true)
Step-taken lib (handles s env f o e) h = (refl, h)
Step-taken lib (hears s env pkt o e) h = (refl, h)
Step-taken lib (advertises s env flooding) h = (refl, h)
Step-taken lib (connects s app) h = (refl, h)
Step-taken lib (works w) h = TxStep-taken w h
Step-taken lib (stops s) h = (refl, refl)

Reach-taken :
    (lib : Library) (s t : System)
    → s.tx_stop ≡ true
    → Reach lib s t
    → (taken t ≡ taken s) × (t.tx_stop ≡ true)
Reach-taken lib s t h begins = (refl, h)
Reach-taken lib s t h (continues {t = u} r st) =
    let (same, h') = Reach-taken lib s u h r in
    let (same', h'') = Step-taken lib st h' in (same' ∙ same, h'')

-- The steps to the end: the packet in hand, and the end itself.
abbrev pub steps_to_end : System → ℕ
steps_to_end s = length (in_hand s.on_air) + (if s.tx_ended then 0 else 1)

two_at_most :
    (hand : Option Str) (ended : Bool) → length (in_hand hand) + (if ended then 0 else 1) ≤ 2
two_at_most none false = omega arith
two_at_most none true = omega arith
two_at_most (some hex) false = omega arith
two_at_most (some hex) true = omega arith

TxStep-to_end :
    {s t : System} → TxStep s t → s.tx_stop ≡ true → steps_to_end s ≡ suc (steps_to_end t)
TxStep-to_end (fetches s hex rest e idle going) h = cc
TxStep-to_end (finishes s hex transmitted e) h = omega (arith, ap (λ o. length (in_hand o)) e)
TxStep-to_end (quits s idle stopped running) h = rw (running, idle)

TxRun-taken :
    (t u : System) (k : ℕ)
    → t.tx_stop ≡ true
    → TxRun t k u
    → (k + steps_to_end u ≡ steps_to_end t) × (taken u ≡ taken t) × (u.tx_stop ≡ true)
TxRun-taken t u k h not_yet = (omega arith, refl, h)
TxRun-taken t u (suc k) h (works_on {t = m} r w) =
    let (count, same, h') = TxRun-taken t m k h r in
    let (same', h'') = TxStep-taken w h' in
    (omega (arith, count, TxStep-to_end w h'), same' ∙ same, h'')

ends_or_works :
    (u : System) (hand : Option Str) (ended : Bool)
    → u.on_air ≡ hand
    → u.tx_ended ≡ ended
    → u.tx_stop ≡ true
    → ((u.on_air ≡ none) × (u.tx_ended ≡ true)) ⊎ ((v : System) × TxStep u v)
ends_or_works u (some hex) ended e d h =
    inr (record u { on_air = none; given = u.given ++ (hex ∷ []) }, finishes u hex true e)
ends_or_works u none false e d h = inr (record u { tx_ended = true }, quits u e h d)
ends_or_works u none true e d h = inl (e, d)

-- Once the destructor has told the transmitter to stop, whatever the threads do until t, and
-- however the transmitter then goes on by its own steps: it has taken no packet from the queue any
-- more, it makes two steps at most, and either it can make another one, or it has ended and the
-- radio was given what had been taken, whether or not it could transmit it.
pub Reach-ends :
    (lib : Library) (s t u : System) (k : ℕ)
    → s.tx_stop ≡ true
    → Reach lib s t
    → TxRun t k u
    → (taken u ≡ taken s) × (k ≤ 2) × (IsEnded s u ⊎ ((v : System) × TxStep u v))
Reach-ends lib s t u k h r w =
    let (before, stopped) = Reach-taken lib s t h r in
    let (count, same, stopped') = TxRun-taken t u k stopped w in
    (
      same ∙ before,
      omega (arith, count, two_at_most t.on_air t.tx_ended),
      elim (ends_or_works u u.on_air u.tx_ended refl refl stopped') [
        | inl (e, d) ↦ inl (record {
          ended = d;
          hand_empty = e;
          taken_given =
              sym (append-nil u.given)
              ∙ ap (λ (o : Option Str). u.given ++ in_hand o) (sym e)
              ∙ same
              ∙ before;
        })
        | inr more ↦ inr more
      ],
    )
