-- ===== src/Node/Echoes/Dispatch.antt =====
-- The dispatch of handleCommand in sdr-node/src/node.cpp: what is queued for the transmitter.
use meshcore_open_sdr.Shared.{Bool, false, refl, some, true, ℕ, ◌∷◌, ◌≡◌}
use meshcore_open_sdr.Library.{Library}
use meshcore_open_sdr.Node.Command.{Command, command_of, handle_command, run_command}
use meshcore_open_sdr.Node.Echoes.{
  Marks, NowMarks, Queues, quietly, send_channel_text-Marks, send_self_advert-Queues,
}
use meshcore_open_sdr.Node.Echoes.Commands.{
  anon-Marks, binary-Marks, channel-Marks, channel_data-Marks, contacts-Marks, direct-Marks,
  path_discovery-Marks, repeater-Marks, settings-Marks, telemetry-Marks,
}
use meshcore_open_sdr.Node.Sending.{self_advert_command}
use meshcore_open_sdr.Node.Settings.{
  get_auto_add_config, get_batt_and_storage, get_custom_var, get_device_time,
}
use meshcore_open_sdr.Node.State.{Ambient, Kind, Node, Outcome, clock_us}
use meshcore_open_sdr.Shared.Text.{Bytes}
use meshcore_open_sdr.Wire.{IsU32}
use mathlib.Core.Option.{some-injective}
use mathlib.Core.Path.{subst}

-- The two commands that do not note the payload of what they queue.
abbrev pub notes_payload : Command → Bool
notes_payload Command.control_data = false
notes_payload Command.trace_path = false
notes_payload cmd = true

-- The command that notes a time of 32 bits.
abbrev pub is_channel_text : Command → Bool
is_channel_text Command.channel_text = true
is_channel_text cmd = false

fits :
    (lib : Library) (env : Ambient) (n : Node) {m o : Outcome}
    → some m ≡ some o
    → NowMarks lib env n m
    → NowMarks lib env n o
fits lib env n e h = subst (NowMarks lib env n) (some-injective _ _ e) h

pub run_command-Marks :
    (lib : Library) (env : Ambient) (n : Node) (f : Bytes) (cmd : Command) (o : Outcome)
    → (is_channel_text cmd ≡ true → IsU32 env.clock)
    → notes_payload cmd ≡ true
    → run_command lib env n f cmd ≡ some o
    → NowMarks lib env n o
unfolding run_command
run_command-Marks lib env n f Command.device_query o w a e =
    fits lib env n e (quietly lib env n refl)
run_command-Marks lib env n f Command.app_start o w a e = fits lib env n e (quietly lib env n refl)
run_command-Marks lib env n f Command.custom_var o w a e =
    fits lib env n e (unfold get_custom_var in quietly lib env n refl)
run_command-Marks lib env n f Command.batt_and_storage o w a e =
    fits lib env n e (unfold get_batt_and_storage in quietly lib env n refl)
run_command-Marks lib env n f Command.auto_add_config o w a e =
    fits lib env n e (unfold get_auto_add_config in quietly lib env n refl)
run_command-Marks lib env n f Command.setter o w a e = fits lib env n e (quietly lib env n refl)
run_command-Marks lib env n f Command.advert_name o w a e =
    fits lib env n e ((settings-Marks lib env n f).0)
run_command-Marks lib env n f Command.advert_latlon o w a e =
    fits lib env n e ((settings-Marks lib env n f).1)
run_command-Marks lib env n f Command.radio_params o w a e =
    fits lib env n e ((settings-Marks lib env n f).2)
run_command-Marks lib env n f Command.stats o w a e =
    fits lib env n e ((settings-Marks lib env n f).3)
run_command-Marks lib env n f Command.device_time o w a e =
    fits lib env n e (unfold get_device_time in quietly lib env n refl)
run_command-Marks lib env n f Command.path_hash o w a e =
    fits lib env n e ((settings-Marks lib env n f).4)
run_command-Marks lib env n f Command.default_scope o w a e =
    fits lib env n e ((settings-Marks lib env n f).5)
run_command-Marks lib env n f Command.set_default_scope o w a e =
    fits lib env n e ((settings-Marks lib env n f).6)
run_command-Marks lib env n f Command.channel o w a e = channel-Marks lib env n f o e
run_command-Marks lib env n f Command.set_channel_cmd o w a e =
    fits lib env n e ((contacts-Marks lib env n f).0)
run_command-Marks lib env n f Command.sync o w a e =
    fits lib env n e ((contacts-Marks lib env n f).1)
run_command-Marks lib env n f Command.contacts o w a e =
    fits lib env n e ((contacts-Marks lib env n f).2)
run_command-Marks lib env n f Command.path_reset o w a e =
    fits lib env n e ((contacts-Marks lib env n f).3)
run_command-Marks lib env n f Command.contact_removal o w a e =
    fits lib env n e ((contacts-Marks lib env n f).4)
run_command-Marks lib env n f Command.self_advert o w a e =
    fits lib env n e
      (unfold self_advert_command in record { queued = send_self_advert-Queues lib env n _ })
run_command-Marks lib env n f Command.channel_text o w a e =
    fits lib env n e (send_channel_text-Marks lib env n f (w refl))
run_command-Marks lib env n f Command.direct_text o w a e =
    fits lib env n e (direct-Marks lib env n f)
run_command-Marks lib env n f Command.telemetry_req o w a e =
    fits lib env n e (telemetry-Marks lib env n f)
run_command-Marks lib env n f Command.binary_req o w a e =
    fits lib env n e (binary-Marks lib env n f)
run_command-Marks lib env n f Command.path_discovery_req o w a e =
    fits lib env n e (path_discovery-Marks lib env n f)
run_command-Marks lib env n f Command.anon_req o w a e = fits lib env n e (anon-Marks lib env n f)
run_command-Marks lib env n f Command.control_data o w a e = cc
run_command-Marks lib env n f Command.channel_data o w a e =
    fits lib env n e (channel_data-Marks lib env n f)
run_command-Marks lib env n f Command.trace_path o w a e = cc
run_command-Marks lib env n f Command.login_req o w a e =
    fits lib env n e (repeater-Marks lib env n f Kind.login)
run_command-Marks lib env n f Command.status_req o w a e =
    fits lib env n e (repeater-Marks lib env n f Kind.status)
run_command-Marks lib env n f Command.contact_upsert o w a e =
    fits lib env n e ((contacts-Marks lib env n f).7)
run_command-Marks lib env n f Command.advert_path o w a e =
    fits lib env n e ((contacts-Marks lib env n f).5)
run_command-Marks lib env n f Command.contact_by_key o w a e =
    fits lib env n e ((contacts-Marks lib env n f).6)
run_command-Marks lib env n f Command.unhandled o w a e = fits lib env n e (quietly lib env n refl)

-- Whatever command the app sends, except CMD_SEND_CONTROL_DATA and CMD_SEND_TRACE_PATH, the queue
-- of the transmitter is left alone, or one packet is put behind the others and its payload is
-- noted with the time of the call, so that the node's receiver will take it for a duplicate. The
-- clock is below 2 ^ 32 seconds.
pub handle_command-Queues :
    (lib : Library) (env : Ambient) (n : Node) (b : ℕ) (rest : Bytes) (o : Outcome)
    → IsU32 env.clock
    → notes_payload (command_of b) ≡ true
    → handle_command lib env n (b ∷ rest) ≡ some o
    → Queues lib (clock_us env) n o.node
unfolding handle_command
handle_command-Queues lib env n b rest o w a e =
    Marks.queued (run_command-Marks lib env n (b ∷ rest) (command_of b) o (λ _. w) a e)
