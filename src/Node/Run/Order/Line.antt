-- ===== src/Node/Run/Order/Line.antt =====
-- All threads of sdr-node/src/node.cpp together queue behind what is queued.
use meshcore_open_sdr.Shared.{
  List, Option, [], ap, none, refl, some, sym, true, ◌++◌, ◌∙◌, ◌∷◌, ◌≡◌,
}
use meshcore_open_sdr.Library.{Library}
use meshcore_open_sdr.Node.Air.{Holds, Leaves}
use meshcore_open_sdr.Node.Air.Packets.{on_rx_packet-Leaves}
use meshcore_open_sdr.Node.Echoes.{send_self_advert-Queues}
use meshcore_open_sdr.Node.Run.{
  Reach, Step, System, TxStep, advertises, begins, connects, continues, fetches, finishes, handles,
  hears, quits, stops, works,
}
use meshcore_open_sdr.Node.Run.Order.{
  GrownFrom, Queues-GrownFrom, grown_one, handle_command-Grows, unchanged,
}
use meshcore_open_sdr.Node.Sending.{send_self_advert}
use meshcore_open_sdr.Node.State.{Node, clock_us}
use meshcore_open_sdr.Shared.Map.{insert, nat_key, str_key}
use meshcore_open_sdr.Shared.Text.{Str}
use mathlib.Core.List.{append-nil, append_assoc}

abbrev pub in_hand : Option Str → List Str
in_hand none = []
in_hand (some hex) = hex ∷ []

-- What was sent, what is on the air, and what is queued, in this order.
abbrev pub whole_line : System → List Str
whole_line s = s.given ++ (in_hand s.on_air ++ s.node.tx_queue)

abbrev Lengthens : System → System → Type 0
Lengthens s t = (more : List Str) × (whole_line t ≡ whole_line s ++ more)

behind_all :
    (sent hand queue more : List Str)
    → sent ++ (hand ++ (queue ++ more)) ≡ (sent ++ (hand ++ queue)) ++ more
behind_all sent hand queue more =
    ap (λ xs. sent ++ xs) (sym (append_assoc hand queue more))
    ∙ sym (append_assoc sent (hand ++ queue) more)

Holds-Lengthens :
    (s : System) (n : Node)
    → Holds (GrownFrom s.node.tx_queue) n
    → Lengthens s (record s { node = n })
Holds-Lengthens s n (more, e) = (
  more,
  ap (λ q. s.given ++ (in_hand s.on_air ++ q)) e
      ∙ behind_all s.given (in_hand s.on_air) s.node.tx_queue more,
)

pub TxStep-whole_line : {s t : System} → TxStep s t → whole_line t ≡ whole_line s
TxStep-whole_line (fetches s hex rest e idle going) =
    ap (λ q. s.given ++ q) (sym e) ∙ ap (λ o. s.given ++ (in_hand o ++ s.node.tx_queue)) (sym idle)
TxStep-whole_line (finishes s hex transmitted e) =
    append_assoc s.given (hex ∷ []) s.node.tx_queue
    ∙ ap (λ o. s.given ++ (in_hand o ++ s.node.tx_queue)) (sym e)
TxStep-whole_line (quits s idle stopped running) = refl

equal_lines : (s t : System) → whole_line t ≡ whole_line s → Lengthens s t
equal_lines s t e = ([], e ∙ sym (append-nil (whole_line s)))

Step-Lengthens : (lib : Library) {s t : System} → Step lib s t → Lengthens s t
Step-Lengthens lib (handles s env f o e) =
    Holds-Lengthens s o.node (Leaves.holds (handle_command-Grows lib env s.node f o e))
Step-Lengthens lib (hears s env pkt o e) = Holds-Lengthens s o.node (
    Leaves.holds (
      on_rx_packet-Leaves (GrownFrom s.node.tx_queue) (λ seen seen' queue app h. h) lib env pkt
        (λ seen queue app key hex g.
          grown_one s.node.tx_queue seen (insert key pkt.time seen) queue app hex g)
        s.node o e (unchanged s.node s.node refl)))
Step-Lengthens lib (advertises s env flooding) =
    let n = send_self_advert lib env flooding s.node in
    Holds-Lengthens s n (
      Queues-GrownFrom lib (clock_us env) s.node n
        (send_self_advert-Queues lib env s.node flooding))
Step-Lengthens lib (connects s app) =
    equal_lines s (record s { node = record s.node { app = app } }) refl
Step-Lengthens lib (works {s} {t} w) = equal_lines s t (TxStep-whole_line w)
Step-Lengthens lib (stops s) = equal_lines s (record s { tx_stop = true }) refl

-- Packets go to the radio in the order in which they were queued, and none is dropped from the
-- queue or overtakes another, over every interleaving of the steps: what the radio was given, what
-- it has, and what is queued are always what they were before, with more behind it.
pub Reach-whole_line :
    (lib : Library) (s t : System)
    → Reach lib s t
    → (more : List Str) × (whole_line t ≡ whole_line s ++ more)
Reach-whole_line lib s t begins = ([], sym (append-nil (whole_line s)))
Reach-whole_line lib s t (continues {t = u} r st) =
    let (more, e) = Reach-whole_line lib s u r in
    let (last, e') = Step-Lengthens lib st in
    (more ++ last, e' ∙ ap (λ xs. xs ++ last) e ∙ append_assoc (whole_line s) more last)
