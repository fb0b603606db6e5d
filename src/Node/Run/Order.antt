-- ===== src/Node/Run/Order.antt =====
-- The order of transmissions, of txWorker and the handlers of sdr-node/src/node.cpp together: what
-- was sent, what is on the air and what is queued only ever grow at the end.
pub mod Line
use meshcore_open_sdr.Shared.{
  List, [], ap, none, not, refl, some, sym, ℕ, ◌%◌, ◌++◌, ◌-◌, ◌/◌, ◌^◌, ◌||◌, ◌∙◌, ◌∷◌, ◌≡◌,
}
use meshcore_open_sdr.Library.{Library, PayloadType, RouteType}
use meshcore_open_sdr.Node.Air.{Holds, Leaves, Settled}
use meshcore_open_sdr.Node.Command.{Command, command_of, handle_command, run_command}
use meshcore_open_sdr.Node.Contacts.{no_channel}
use meshcore_open_sdr.Node.Datagrams.{send_control_data, send_trace_path}
use meshcore_open_sdr.Node.Echoes.{NowMarks, Queues, nothing_new, one_more}
use meshcore_open_sdr.Node.Echoes.Dispatch.{run_command-Marks}
use meshcore_open_sdr.Node.Queues.{enqueue_tx, hex_of, mark_seen}
use meshcore_open_sdr.Node.Sending.{flood_packet, send_channel_text}
use meshcore_open_sdr.Node.State.{Ambient, Node, Outcome, clock_u32, clock_us}
use meshcore_open_sdr.Shared.Lists.{drop, get_or, length}
use meshcore_open_sdr.Shared.Map.{Map}
use meshcore_open_sdr.Shared.Scan.{bytes}
use meshcore_open_sdr.Shared.Tests.{if_elim, leb, ltb, option_elim, ◌==◌}
use meshcore_open_sdr.Shared.Text.{Bytes, Str, is_empty, until_nul}
use mathlib.Core.List.{append-nil, append_assoc}
use mathlib.Core.Option.{some-injective}
use mathlib.Core.Path.{subst}

-- The queue is an old one with more behind it.
abbrev pub GrownFrom : List Str → Map Str ℕ → List Str → Settled → Type 0
GrownFrom base seen queue rest = (more : List Str) × (queue ≡ base ++ more)

pub unchanged : (n m : Node) → m.tx_queue ≡ n.tx_queue → Holds (GrownFrom n.tx_queue) m
unchanged n m e = ([], e ∙ sym (append-nil n.tx_queue))

pub grown_one :
    (base : List Str) (seen seen' : Map Str ℕ) (queue : List Str) (rest : Settled) (hex : Str)
    → GrownFrom base seen queue rest
    → GrownFrom base seen' (queue ++ (hex ∷ [])) rest
grown_one base seen seen' queue rest hex (more, e) =
    (more ++ (hex ∷ []), ap (λ xs. xs ++ (hex ∷ [])) e ∙ append_assoc base more (hex ∷ []))

pub Queues-GrownFrom :
    (lib : Library) (at : ℕ) (n m : Node) → Queues lib at n m → Holds (GrownFrom n.tx_queue) m
Queues-GrownFrom lib at n m (nothing_new e) = unchanged n m e
Queues-GrownFrom lib at n m (one_more payload bytes b e s) = (hex_of lib bytes ∷ [], e)

module _ (lib : Library) (env : Ambient) (n : Node) where
  abbrev Grows : Outcome → Type 0
  Grows = Leaves (GrownFrom n.tx_queue)

  still :
      {m : Node} {replies pushes : List Bytes}
      → m.tx_queue ≡ n.tx_queue
      → Grows (record { node = m; replies = replies; pushes = pushes })
  still {m = m} e = record { holds = unchanged n m e }

  more_of :
      {m : Node} {replies pushes : List Bytes} (hex : Str)
      → m.tx_queue ≡ n.tx_queue ++ (hex ∷ [])
      → Grows (record { node = m; replies = replies; pushes = pushes })
  more_of hex e = record { holds = (hex ∷ [], e) }

  channel_text-Grows : (f : Bytes) → Grows (send_channel_text lib env n f)
  unfolding send_channel_text enqueue_tx mark_seen
  channel_text-Grows f =
      let ch = get_or n.channels (get_or f 2 0) no_channel in
      if_elim Grows (ltb (length f) 8) (still refl) (
        if_elim Grows (leb (length n.channels) (get_or f 2 0) || is_empty ch.key_hex) (still refl) (
          option_elim Grows
            (lib.build_group_text ch.key_hex n.cfg.name (until_nul (drop 7 f)) (clock_u32 env) 0)
            (still refl)
            (λ payload.
              option_elim Grows (flood_packet lib n PayloadType.group_text payload) (still refl)
                (λ bytes. more_of (hex_of lib bytes) refl))))

  control_data-Grows : (f : Bytes) → Grows (send_control_data lib n f)
  unfolding send_control_data enqueue_tx
  control_data-Grows f = if_elim Grows (ltb (length f) 2 || ltb (get_or f 1 0) 128) (still refl) (
      option_elim Grows (lib.build_packet RouteType.direct PayloadType.control (drop 1 f) none)
        (still refl) (λ bytes. more_of (hex_of lib bytes) refl))

  trace_path-Grows : (f : Bytes) → Grows (send_trace_path lib env n f)
  unfolding send_trace_path enqueue_tx
  trace_path-Grows f =
      let hash_size = 2 ^ (get_or f 9 0 % 4) in
      let path_bytes = length f - 10 in
      if_elim Grows (ltb (length f) 10) (still refl) (
        if_elim Grows (not (path_bytes % hash_size == 0) || ltb 63 (path_bytes / hash_size))
          (still refl)
          (option_elim Grows (lib.build_packet RouteType.direct PayloadType.trace (drop 1 f) none)
            (still refl) (λ bytes. more_of (hex_of lib bytes) refl)))

  marked-Grows : (o : Outcome) → NowMarks lib env n o → Grows o
  marked-Grows o h = record { holds = Queues-GrownFrom lib (clock_us env) n o.node h.queued }

  fits_grown : {m o : Outcome} → some m ≡ some o → Grows m → Grows o
  fits_grown e h = subst Grows (some-injective _ _ e) h

  run_command-Grows :
      (f : Bytes) (cmd : Command) (o : Outcome) → run_command lib env n f cmd ≡ some o → Grows o
  unfolding run_command
  run_command-Grows f Command.channel_text o e = fits_grown e (channel_text-Grows f)
  run_command-Grows f Command.control_data o e = fits_grown e (control_data-Grows f)
  run_command-Grows f Command.trace_path o e = fits_grown e (trace_path-Grows f)
  run_command-Grows f cmd o e =
      marked-Grows o (run_command-Marks lib env n f cmd o (λ t. cc) refl e)

  pub handle_command-Grows :
      (f : Bytes) (o : Outcome) → handle_command lib env n f ≡ some o → Grows o
  unfolding handle_command
  handle_command-Grows [] o e = fits_grown e (still refl)
  handle_command-Grows (b ∷ rest) o e = run_command-Grows (b ∷ rest) (command_of b) o e
