-- ===== src/Tests/Commanding.antt =====
-- Commands, packets and runs of a node at concrete inputs.
use meshcore_open_sdr.Shared.{
  List, [], arith, false, none, refl, some, true, ◌++◌, ◌+◌, ◌∷◌, ◌≡◌, ◌≤◌, ◌⊎◌,
}
use meshcore_open_sdr.Node.Answering.{IsAnswered, handle_command-Answers}
use meshcore_open_sdr.Node.Answers.{confirm}
use meshcore_open_sdr.Node.Command.{command_codes, command_of, handle_command, select}
use meshcore_open_sdr.Node.Echoes.{Queues}
use meshcore_open_sdr.Node.Echoes.Dispatch.{handle_command-Queues}
use meshcore_open_sdr.Node.Invariant.{IsSound}
use meshcore_open_sdr.Node.Queues.{enqueue_tx, hex_of, mark_seen}
use meshcore_open_sdr.Node.Receive.{count_airtime, payload_key}
use meshcore_open_sdr.Node.Run.{
  Reach, Reach-IsSound, System, TxStep, at_work, begins, continues, fetches, finishes, handles,
  works,
}
use meshcore_open_sdr.Node.Run.Order.Line.{Reach-whole_line, whole_line}
use meshcore_open_sdr.Node.Run.Stopping.{IsEnded, Reach-ends, taken}
use meshcore_open_sdr.Node.Run.Transmitter.{
  IsDrained, TxRun, drains_all, not_yet, work_left, works_on,
}
use meshcore_open_sdr.Node.Sending.{self_advert_command, send_self_advert}
use meshcore_open_sdr.Node.State.{Outcome, RxPacket, clock_us}
use meshcore_open_sdr.Shared.Int.{pos}
use meshcore_open_sdr.Shared.Lists.{replicate}
use meshcore_open_sdr.Shared.Map.{insert, nat_key, str_key}
use meshcore_open_sdr.Shared.Text.{Bytes, Str, codes, to_lower}
use meshcore_open_sdr.Tests.Samples.{
  sample_decode, sample_env, sample_lib, sample_node, sample_node-IsSound, sample_packet,
}

handle_command-Answers_example :
    (o : Outcome) × (handle_command sample_lib sample_env sample_node (31 ∷ 0 ∷ []) ≡ some o)
    × IsAnswered o
unfolding command_of select command_codes
handle_command-Answers_example =
    handle_command-Answers sample_lib sample_env sample_node 31 (0 ∷ []) refl
      ((replicate 16 1, refl), tt)

abbrev advert_frame : Bytes
advert_frame = 7 ∷ []

abbrev advertised : Outcome
advertised = self_advert_command sample_lib sample_env sample_node advert_frame

advertising : handle_command sample_lib sample_env sample_node advert_frame ≡ some advertised
unfolding handle_command command_of select command_codes
advertising = refl

abbrev confirmed : Outcome
confirmed =
    confirm 7 1_000_000_000
      (record (count_airtime sample_packet (record sample_node { last_snr = pos 250 })) {
        seen = insert (codes "07000000") 1_000_000_000 sample_node.seen;
      })

abbrev idle : System
idle = at_work sample_node

abbrev busy : System
busy = record idle { node = advertised.node }

abbrev base_hex : Str
base_hex = codes "090062617365"

queued : advertised.node.tx_queue ≡ base_hex ∷ []
unfolding self_advert_command send_self_advert enqueue_tx hex_of to_lower mark_seen
queued = refl

abbrev on_the_air : System
on_the_air = record busy { node = record advertised.node { tx_queue = [] }; on_air = some base_hex }

run : Reach sample_lib idle (record on_the_air { on_air = none; given = base_hex ∷ [] })
run =
    continues
      (continues (continues begins (handles idle sample_env advert_frame advertised advertising))
        (works (fetches busy base_hex [] queued refl refl)))
      (works (finishes on_the_air base_hex true refl))

Reach-IsSound_example : IsSound (record advertised.node { tx_queue = [] })
Reach-IsSound_example =
    Reach-IsSound sample_lib idle (record on_the_air { on_air = none; given = base_hex ∷ [] })
      sample_node-IsSound run

abbrev ack_key : Str
ack_key = payload_key (sample_decode sample_packet.hex)

abbrev repeat : RxPacket
repeat = record sample_packet { time = 1_100_000_000 }

handle_command-Queues_example : Queues sample_lib (clock_us sample_env) sample_node advertised.node
unfolding command_of select command_codes
handle_command-Queues_example =
    handle_command-Queues sample_lib sample_env sample_node 7 [] advertised (omega arith) refl
      advertising

-- The packet is fetched; the radio has it in hand.
fetched : TxRun busy 1 on_the_air
fetched = works_on not_yet (fetches busy base_hex [] queued refl refl)

drains_all_example :
    (1 + work_left on_the_air ≡ work_left busy)
    × (IsDrained busy on_the_air ⊎ ((u : System) × TxStep on_the_air u))
drains_all_example = drains_all busy on_the_air 1 refl fetched

Reach-whole_line_example :
    (more : List Str) × (whole_line (record on_the_air { on_air = none; given = base_hex ∷ [] })
      ≡ whole_line idle ++ more)
Reach-whole_line_example =
    Reach-whole_line sample_lib idle (record on_the_air { on_air = none; given = base_hex ∷ [] })
      run

abbrev stopping : System
stopping = record on_the_air { tx_stop = true }

abbrev told_off : System
told_off = record stopping { on_air = none; given = base_hex ∷ [] }

Reach-ends_example :
    (taken told_off ≡ taken stopping)
    × (1 ≤ 2)
    × (IsEnded stopping told_off ⊎ ((v : System) × TxStep told_off v))
Reach-ends_example =
    Reach-ends sample_lib stopping stopping told_off 1 refl begins
      (works_on not_yet (finishes stopping base_hex false refl))
