-- ===== src/Node/Command.antt =====
-- The dispatch of handleCommand in sdr-node/src/node.cpp.
use meshcore_open_sdr.Shared.{List, Option, [], some, ℕ, ◌∷◌}
use meshcore_open_sdr.Library.{Library}
use meshcore_open_sdr.Node.Contacts.{
  add_update_contact, get_advert_path, get_channel, get_contact_by_key, get_contacts,
  remove_contact, reset_path, set_channel, sync_next_message,
}
use meshcore_open_sdr.Node.Datagrams.{send_channel_data, send_control_data, send_trace_path}
use meshcore_open_sdr.Node.Frames.{device_info, self_info}
use meshcore_open_sdr.Node.Requests.{
  handle_anon_request, repeater_request, send_binary_req, send_path_discovery_req,
  send_telemetry_req,
}
use meshcore_open_sdr.Node.Sending.{self_advert_command, send_channel_text, send_direct_text}
use meshcore_open_sdr.Node.Settings.{
  get_auto_add_config, get_batt_and_storage, get_custom_var, get_default_flood_scope,
  get_device_time, get_stats, set_advert_latlon, set_advert_name, set_default_flood_scope,
  set_path_hash_mode, set_radio_params,
}
use meshcore_open_sdr.Node.State.{Ambient, Kind, Node, Outcome, err_frame, ok_frame, quiet, reply}
use meshcore_open_sdr.Shared.Tests.{if◌then◌else◌, ◌==◌}
use meshcore_open_sdr.Shared.Text.{Bytes}

-- One constructor for each case of the switch.
pub data Command : Type 0 where
  device_query app_start custom_var batt_and_storage auto_add_config : Command
  setter advert_name advert_latlon radio_params stats device_time path_hash : Command
  default_scope set_default_scope channel set_channel_cmd sync contacts : Command
  path_reset contact_removal self_advert channel_text direct_text : Command
  telemetry_req binary_req path_discovery_req anon_req control_data channel_data : Command
  trace_path login_req status_req contact_upsert advert_path contact_by_key : Command
  unhandled : Command

-- The case that a frame's first byte selects; setters that are only acknowledged share one.
unfoldable pub command_codes : List (ℕ × Command)
command_codes =
    (22, device_query)
    ∷ (1, app_start)
    ∷ (40, custom_var)
    ∷ (20, batt_and_storage)
    ∷ (59, auto_add_config)
    ∷ (58, setter)
    ∷ (6, setter)
    ∷ (38, setter)
    ∷ (8, advert_name)
    ∷ (14, advert_latlon)
    ∷ (11, radio_params)
    ∷ (12, setter)
    ∷ (54, setter)
    ∷ (56, stats)
    ∷ (5, device_time)
    ∷ (61, path_hash)
    ∷ (64, default_scope)
    ∷ (63, set_default_scope)
    ∷ (31, channel)
    ∷ (32, set_channel_cmd)
    ∷ (10, sync)
    ∷ (4, contacts)
    ∷ (13, path_reset)
    ∷ (15, contact_removal)
    ∷ (7, self_advert)
    ∷ (3, channel_text)
    ∷ (2, direct_text)
    ∷ (39, telemetry_req)
    ∷ (50, binary_req)
    ∷ (52, path_discovery_req)
    ∷ (57, anon_req)
    ∷ (55, control_data)
    ∷ (62, channel_data)
    ∷ (36, trace_path)
    ∷ (26, login_req)
    ∷ (27, status_req)
    ∷ (9, contact_upsert)
    ∷ (42, advert_path)
    ∷ (30, contact_by_key)
    ∷ []

unfoldable pub select : ℕ → List (ℕ × Command) → Command
select b [] = unhandled
select b ((code, cmd) ∷ rest) = if code == b then cmd else select b rest

unfoldable pub command_of : ℕ → Command
unfolding select command_codes
command_of b = select b command_codes

-- `none` where hexToBytes throws, which only CMD_GET_CHANNEL can make happen.
unfoldable pub run_command : Library → Ambient → Node → Bytes → Command → Option Outcome
run_command lib env n f device_query = some (reply n (device_info env n))
run_command lib env n f app_start = some (reply n (self_info lib n))
run_command lib env n f custom_var = some (get_custom_var n)
run_command lib env n f batt_and_storage = some (get_batt_and_storage n)
run_command lib env n f auto_add_config = some (get_auto_add_config n)
run_command lib env n f setter = some (reply n ok_frame)
run_command lib env n f advert_name = some (set_advert_name n f)
run_command lib env n f advert_latlon = some (set_advert_latlon lib n f)
run_command lib env n f radio_params = some (set_radio_params n f)
run_command lib env n f stats = some (get_stats env n f)
run_command lib env n f device_time = some (get_device_time env n)
run_command lib env n f path_hash = some (set_path_hash_mode lib env n f)
run_command lib env n f default_scope = some (get_default_flood_scope n)
run_command lib env n f set_default_scope = some (set_default_flood_scope lib env n f)
run_command lib env n f channel = get_channel lib n f
run_command lib env n f set_channel_cmd = some (set_channel lib env n f)
run_command lib env n f sync = some (sync_next_message n)
run_command lib env n f contacts = some (get_contacts n f)
run_command lib env n f path_reset = some (reset_path lib env n f)
run_command lib env n f contact_removal = some (remove_contact lib n f)
run_command lib env n f self_advert = some (self_advert_command lib env n f)
run_command lib env n f channel_text = some (send_channel_text lib env n f)
run_command lib env n f direct_text = some (send_direct_text lib env n f)
run_command lib env n f telemetry_req = some (send_telemetry_req lib env n f)
run_command lib env n f binary_req = some (send_binary_req lib env n f)
run_command lib env n f path_discovery_req = some (send_path_discovery_req lib env n f)
run_command lib env n f anon_req = some (handle_anon_request lib env n f)
run_command lib env n f control_data = some (send_control_data lib n f)
run_command lib env n f channel_data = some (send_channel_data lib env n f)
run_command lib env n f trace_path = some (send_trace_path lib env n f)
run_command lib env n f login_req = some (repeater_request lib env n f Kind.login)
run_command lib env n f status_req = some (repeater_request lib env n f Kind.status)
run_command lib env n f contact_upsert = some (add_update_contact lib env n f)
run_command lib env n f advert_path = some (get_advert_path lib n f)
run_command lib env n f contact_by_key = some (get_contact_by_key lib n f)
run_command lib env n f unhandled = some (reply n (err_frame 1))

-- handleCommand: an empty frame does nothing.
unfoldable pub handle_command : Library → Ambient → Node → Bytes → Option Outcome
unfolding run_command
handle_command lib env n [] = some (quiet n)
handle_command lib env n (b ∷ rest) = run_command lib env n (b ∷ rest) (command_of b)
