-- ===== src/Node/Run/Transmitter.antt =====
-- txWorker of sdr-node/src/node.cpp by its own steps, while no other thread does anything: how long
-- it can go on, and where it ends.
use meshcore_open_sdr.Shared.{
  List, Option, [], ap, arith, false, inl, inr, none, refl, some, suc, sym, true, ℕ, ◌*◌, ◌++◌, ◌+◌,
  ◌∙◌, ◌∷◌, ◌≡◌, ◌⊎◌,
}
use meshcore_open_sdr.Node.Run.{System, TxStep, fetches, finishes, quits}
use meshcore_open_sdr.Node.Run.Order.Line.{TxStep-whole_line, in_hand, whole_line}
use meshcore_open_sdr.Shared.Lists.{length}
use meshcore_open_sdr.Shared.Text.{Str}
use mathlib.Core.List.{append-nil}

-- So many steps of the transmitter.
pub data TxRun (s : System) : ℕ → System → Type 0 where
  not_yet : TxRun s 0 s
  works_on : {k : ℕ} {t u : System} → TxRun s k t → TxStep t u → TxRun s (suc k) u

-- The steps that what is queued and in hand takes.
abbrev pub work_left : System → ℕ
work_left s = length (in_hand s.on_air) + 2 * length s.node.tx_queue

-- All that was queued and in hand is given to the radio, in order.
pub record IsDrained (s t : System) : Type 0 where
  pub queue_empty : t.node.tx_queue ≡ []
  pub hand_empty : t.on_air ≡ none
  pub all_given : t.given ≡ whole_line s

TxStep-work :
    {s t : System}
    → TxStep s t
    → s.tx_stop ≡ false
    → (work_left s ≡ suc (work_left t)) × (t.tx_stop ≡ false)
TxStep-work (fetches s hex rest e idle going) h =
    (omega (arith, ap length e, ap (λ o. length (in_hand o)) idle), h)
TxStep-work (finishes s hex transmitted e) h = (omega (arith, ap (λ o. length (in_hand o)) e), h)
TxStep-work (quits s idle stopped running) h = cc

-- The transmitter can go on as long as there is something to do.
can_go_on :
    (t : System) (hand : Option Str) (queue : List Str)
    → t.on_air ≡ hand
    → t.node.tx_queue ≡ queue
    → t.tx_stop ≡ false
    → ((t.node.tx_queue ≡ []) × (t.on_air ≡ none)) ⊎ ((u : System) × TxStep t u)
can_go_on t (some hex) queue e q h =
    inr (record t { on_air = none; given = t.given ++ (hex ∷ []) }, finishes t hex true e)
can_go_on t none (hex ∷ rest) e q h = inr (
  record t { node = record t.node { tx_queue = rest }; on_air = some hex },
  fetches t hex rest q e h,
)
can_go_on t none [] e q h = inl (q, e)

TxRun-kept :
    (s t : System) (k : ℕ)
    → s.tx_stop ≡ false
    → TxRun s k t
    → (k + work_left t ≡ work_left s) × (whole_line t ≡ whole_line s) × (t.tx_stop ≡ false)
TxRun-kept s t k h not_yet = (omega arith, refl, h)
TxRun-kept s t (suc k) h (works_on {t = m} r w) =
    let (count, line, going) = TxRun-kept s m k h r in
    let (less, going') = TxStep-work w going in
    (omega (arith, count, less), TxStep-whole_line w ∙ line, going')

-- However the transmitter works by its own steps, while it is not told to stop: after any number of
-- steps, that number and what is left to do make up what there was to do at the start, so that it
-- cannot go on for ever; and either it can make another step, or nothing is queued or in hand and
-- all that was has been given to the radio, in order, whether or not the radio could transmit it.
pub drains_all :
    (s t : System) (k : ℕ)
    → s.tx_stop ≡ false
    → TxRun s k t
    → (k + work_left t ≡ work_left s) × (IsDrained s t ⊎ ((u : System) × TxStep t u))
drains_all s t k h r =
    let (count, line, going) = TxRun-kept s t k h r in
    (
      count,
      elim (can_go_on t t.on_air t.node.tx_queue refl refl going) [
        | inl (q, e) ↦ inl (record {
          queue_empty = q;
          hand_empty = e;
          all_given =
              sym (append-nil t.given)
              ∙ ap (λ (o : Option Str). t.given ++ (in_hand o ++ [])) (sym e)
              ∙ ap (λ (xs : List Str). t.given ++ (in_hand t.on_air ++ xs)) (sym q)
              ∙ line;
        })
        | inr more ↦ inr more
      ],
    )
