-- ===== src/Node/Invariant/Dispatch.antt =====
-- handleCommand of sdr-node/src/node.cpp keeps the invariant of the node, whatever the frame.
use meshcore_open_sdr.Shared.{[], some, ◌∷◌, ◌≡◌}
use meshcore_open_sdr.Library.{Library}
use meshcore_open_sdr.Node.Command.{Command, command_of, handle_command, run_command}
use meshcore_open_sdr.Node.Contacts.{get_contacts}
use meshcore_open_sdr.Node.Invariant.{IsSound, Keeps, keep}
use meshcore_open_sdr.Node.Invariant.Commands.{
  add_update_contact-IsSound, get_advert_path-IsSound, get_channel-IsSound,
  get_contact_by_key-IsSound, get_scope-IsSound, get_stats-IsSound, remove_contact-IsSound,
  reset_path-IsSound, set_advert_latlon-IsSound, set_advert_name-IsSound, set_channel-IsSound,
  set_path_hash_mode-IsSound, set_radio_params-IsSound, set_scope-IsSound, sync-IsSound,
}
use meshcore_open_sdr.Node.Invariant.Sending.{
  anon_request-IsSound, binary-IsSound, path_discovery-IsSound, repeater_request-IsSound,
  self_advert-IsSound, send_channel_data-IsSound, send_channel_text-IsSound,
  send_control_data-IsSound, send_direct_text-IsSound, send_trace_path-IsSound, telemetry-IsSound,
}
use meshcore_open_sdr.Node.Settings.{
  get_auto_add_config, get_batt_and_storage, get_custom_var, get_device_time,
}
use meshcore_open_sdr.Node.State.{Ambient, Kind, Node, Outcome}
use meshcore_open_sdr.Shared.Text.{Bytes}
use mathlib.Core.Option.{some-injective}
use mathlib.Core.Path.{subst}

kept : {x o : Outcome} → some x ≡ some o → Keeps x → Keeps o
kept {x} {o} e k = subst Keeps (some-injective x o e) k

run_command-Keeps :
    (lib : Library) (env : Ambient) (n : Node) (f : Bytes) (cmd : Command) {o : Outcome}
    → run_command lib env n f cmd ≡ some o
    → IsSound n
    → Keeps o
unfolding run_command
run_command-Keeps lib env n f Command.device_query e s = kept e (keep s)
run_command-Keeps lib env n f Command.app_start e s = kept e (keep s)
run_command-Keeps lib env n f Command.custom_var e s = kept e (unfold get_custom_var in keep s)
run_command-Keeps lib env n f Command.batt_and_storage e s =
    kept e (unfold get_batt_and_storage in keep s)
run_command-Keeps lib env n f Command.auto_add_config e s =
    kept e (unfold get_auto_add_config in keep s)
run_command-Keeps lib env n f Command.setter e s = kept e (keep s)
run_command-Keeps lib env n f Command.advert_name e s = kept e (set_advert_name-IsSound n f s)
run_command-Keeps lib env n f Command.advert_latlon e s =
    kept e (set_advert_latlon-IsSound lib n f s)
run_command-Keeps lib env n f Command.radio_params e s = kept e (set_radio_params-IsSound n f s)
run_command-Keeps lib env n f Command.stats e s = kept e (get_stats-IsSound env n f s)
run_command-Keeps lib env n f Command.device_time e s = kept e (unfold get_device_time in keep s)
run_command-Keeps lib env n f Command.path_hash e s =
    kept e (set_path_hash_mode-IsSound lib env n f s)
run_command-Keeps lib env n f Command.default_scope e s = kept e (get_scope-IsSound n s)
run_command-Keeps lib env n f Command.set_default_scope e s =
    kept e (set_scope-IsSound lib env n f s)
run_command-Keeps lib env n f Command.channel e s = get_channel-IsSound lib n f _ e s
run_command-Keeps lib env n f Command.set_channel_cmd e s =
    kept e (set_channel-IsSound lib env n f s)
run_command-Keeps lib env n f Command.sync e s = kept e (sync-IsSound n s)
run_command-Keeps lib env n f Command.contacts e s = kept e (unfold get_contacts in keep s)
run_command-Keeps lib env n f Command.path_reset e s = kept e (reset_path-IsSound lib env n f s)
run_command-Keeps lib env n f Command.contact_removal e s =
    kept e (remove_contact-IsSound lib n f s)
run_command-Keeps lib env n f Command.self_advert e s = kept e (self_advert-IsSound lib env n f s)
run_command-Keeps lib env n f Command.channel_text e s =
    kept e (send_channel_text-IsSound lib env n f s)
run_command-Keeps lib env n f Command.direct_text e s =
    kept e (send_direct_text-IsSound lib env n f s)
run_command-Keeps lib env n f Command.telemetry_req e s = kept e (telemetry-IsSound lib env n f s)
run_command-Keeps lib env n f Command.binary_req e s = kept e (binary-IsSound lib env n f s)
run_command-Keeps lib env n f Command.path_discovery_req e s =
    kept e (path_discovery-IsSound lib env n f s)
run_command-Keeps lib env n f Command.anon_req e s = kept e (anon_request-IsSound lib env n f s)
run_command-Keeps lib env n f Command.control_data e s =
    kept e (send_control_data-IsSound lib n f s)
run_command-Keeps lib env n f Command.channel_data e s =
    kept e (send_channel_data-IsSound lib env n f s)
run_command-Keeps lib env n f Command.trace_path e s =
    kept e (send_trace_path-IsSound lib env n f s)
run_command-Keeps lib env n f Command.login_req e s =
    kept e (repeater_request-IsSound lib env n f s Kind.login)
run_command-Keeps lib env n f Command.status_req e s =
    kept e (repeater_request-IsSound lib env n f s Kind.status)
run_command-Keeps lib env n f Command.contact_upsert e s =
    kept e (add_update_contact-IsSound lib env n f s)
run_command-Keeps lib env n f Command.advert_path e s = kept e (get_advert_path-IsSound lib n f s)
run_command-Keeps lib env n f Command.contact_by_key e s =
    kept e (get_contact_by_key-IsSound lib n f s)
run_command-Keeps lib env n f Command.unhandled e s = kept e (keep s)

-- Whatever the app sends, a command that returns leaves a sound node.
pub handle_command-IsSound :
    (lib : Library) (env : Ambient) (n : Node) (f : Bytes) (o : Outcome)
    → handle_command lib env n f ≡ some o
    → IsSound n
    → IsSound o.node
unfolding handle_command
handle_command-IsSound lib env n [] o e s = Keeps.sound (kept e (keep s))
handle_command-IsSound lib env n (b ∷ rest) o e s =
    Keeps.sound (run_command-Keeps lib env n (b ∷ rest) (command_of b) e s)
