-- ===== src/Node/Answering.antt =====
-- How handleCommand of sdr-node/src/node.cpp answers the app: which commands get one frame.
use meshcore_open_sdr.Shared.{
  Bool, Option, [], arith, false, inl, inr, refl, some, true, ℕ, ◌∷◌, ◌≡◌,
}
use meshcore_open_sdr.Library.{Library}
use meshcore_open_sdr.Node.Command.{Command, command_of, handle_command, run_command}
use meshcore_open_sdr.Node.Contacts.{
  add_update_contact, get_advert_path, get_channel, get_channel_at, get_contact_by_key,
  max_channels, no_channel, reset_path, set_channel, sync_next_message,
}
use meshcore_open_sdr.Node.Datagrams.{
  send_channel_data, send_channel_data_at, send_control_data, send_trace_path,
}
use meshcore_open_sdr.Node.Requests.{
  handle_anon_request, repeater_request, repeater_request_to, request_to, send_binary_req,
  send_contact_request, send_path_discovery_req, send_telemetry_req,
}
use meshcore_open_sdr.Node.Sending.{
  find_by_prefix, self_advert_command, send_channel_text, send_cli_to, send_direct_text,
  send_text_to,
}
use meshcore_open_sdr.Node.Settings.{
  get_auto_add_config, get_batt_and_storage, get_custom_var, get_default_flood_scope,
  get_device_time, get_stats, set_advert_latlon, set_advert_name, set_default_flood_scope,
  set_path_hash_mode, set_radio_params,
}
use meshcore_open_sdr.Node.State.{Ambient, Contact, Kind, Node, Outcome, reply}
use meshcore_open_sdr.Shared.Lists.{All, All-get_or, get_or, length}
use meshcore_open_sdr.Shared.Tests.{
  Bool-cases, if_elim, if◌then◌else◌, leb, ltb, ltb→lt, option_elim, ◌==◌,
}
use meshcore_open_sdr.Shared.Text.{Bytes, Str}
use meshcore_open_sdr.Wire.{slice}

-- One frame goes to the command's sender, and none to the app as a push.
pub record IsAnswered (o : Outcome) : Type 0 where
  pub one_reply : length o.replies ≡ 1
  pub no_push : o.pushes ≡ []

answered : (n : Node) (f : Bytes) → IsAnswered (reply n f)
answered n f = record { one_reply = refl; no_push = refl }

-- The two commands that are answered otherwise.
abbrev pub is_answered_once : Command → Bool
is_answered_once Command.contact_removal = false
is_answered_once Command.contacts = false
is_answered_once cmd = true

module _ (lib : Library) (env : Ambient) (n : Node) (f : Bytes) where
  settings-IsAnswered :
      IsAnswered (set_advert_name n f)
      × IsAnswered (set_advert_latlon lib n f)
      × IsAnswered (set_radio_params n f)
      × IsAnswered (get_stats env n f)
      × IsAnswered (set_path_hash_mode lib env n f)
      × IsAnswered (get_default_flood_scope n)
      × IsAnswered (set_default_flood_scope lib env n f)
  unfolding set_advert_name set_advert_latlon set_radio_params get_stats set_path_hash_mode
      get_default_flood_scope set_default_flood_scope
  settings-IsAnswered = ground arith

  contacts-IsAnswered :
      IsAnswered (set_channel lib env n f)
      × IsAnswered (sync_next_message n)
      × IsAnswered (reset_path lib env n f)
      × IsAnswered (get_advert_path lib n f)
      × IsAnswered (get_contact_by_key lib n f)
      × IsAnswered (add_update_contact lib env n f)
  unfolding set_channel sync_next_message reset_path get_advert_path get_contact_by_key
      add_update_contact
  contacts-IsAnswered = ground arith

  text-IsAnswered : (e : Str × Contact) → IsAnswered (send_text_to lib env n f e)
  unfolding send_text_to
  text-IsAnswered (key, c) = ground arith

  cli-IsAnswered : (e : Str × Contact) → IsAnswered (send_cli_to lib env n f e)
  unfolding send_cli_to
  cli-IsAnswered (key, c) = ground arith

  sending-IsAnswered :
      IsAnswered (send_channel_text lib env n f)
      × IsAnswered (send_control_data lib n f)
      × IsAnswered (send_channel_data lib env n f)
      × IsAnswered (send_trace_path lib env n f)
  unfolding send_channel_text send_control_data send_channel_data send_channel_data_at
      send_trace_path
  sending-IsAnswered = ground arith

  direct-IsAnswered : IsAnswered (send_direct_text lib env n f)
  unfolding send_direct_text
  direct-IsAnswered =
      let target = find_by_prefix (slice 7 6 f) n.contacts in
      if_elim IsAnswered (ltb (length f) 14) (answered n _) (
        if_elim IsAnswered (get_or f 1 0 == 1)
          (option_elim IsAnswered target (answered n _) cli-IsAnswered)
          (if_elim IsAnswered (get_or f 1 0 == 0)
            (option_elim IsAnswered target (answered n _) text-IsAnswered) (answered n _)))

  request-IsAnswered :
      (off : ℕ) (body : Bytes) (kind : Kind) (force : Bool)
      → IsAnswered (send_contact_request lib env n f off body kind force)
  unfolding send_contact_request request_to
  request-IsAnswered off body kind force = ground arith

  requests-IsAnswered :
      IsAnswered (send_telemetry_req lib env n f)
      × IsAnswered (send_binary_req lib env n f)
      × IsAnswered (send_path_discovery_req lib env n f)
      × IsAnswered (handle_anon_request lib env n f)
  unfolding send_telemetry_req send_binary_req send_path_discovery_req handle_anon_request
  requests-IsAnswered = grind (arith, request-IsAnswered)

  repeater-IsAnswered : (kind : Kind) → IsAnswered (repeater_request lib env n f kind)
  unfolding repeater_request repeater_request_to
  repeater-IsAnswered kind = ground arith

  -- The command returns, with one frame as its answer.
  abbrev Answers : Option Outcome → Type 0
  Answers result = (o : Outcome) × (result ≡ some o) × IsAnswered o

  returned : {o : Outcome} → IsAnswered o → Answers (some o)
  returned {o = o} h = (o, refl, h)

  abbrev HasKeys : Type 0
  HasKeys = All (λ ch. (key : Bytes) × (lib.hex_to_bytes ch.key_hex ≡ some key)) n.channels

  channel-Answers : HasKeys → Answers (get_channel lib n f)
  unfolding get_channel get_channel_at
  channel-Answers h =
      let idx = if ltb 1 (length f) then get_or f 1 0 else 0 in
      elim (Bool-cases (leb max_channels idx)) [
        | inl e ↦ rw e (returned (answered n _))
        | inr e ↦ elim (Bool-cases (ltb idx (length n.channels))) [
          | inl e' ↦
              let (key, k) = All-get_or _ idx no_channel n.channels h (ltb→lt idx _ e') in
              rw (e, e', k) (returned (answered n _))
          | inr e' ↦ rw (e, e') (returned (answered n _))
        ]
      ]

  run_command-Answers :
      (cmd : Command)
      → is_answered_once cmd ≡ true
      → HasKeys
      → Answers (run_command lib env n f cmd)
  unfolding run_command
  run_command-Answers Command.device_query a h = returned (answered n _)
  run_command-Answers Command.app_start a h = returned (answered n _)
  run_command-Answers Command.custom_var a h = returned (unfold get_custom_var in answered n _)
  run_command-Answers Command.batt_and_storage a h =
      returned (unfold get_batt_and_storage in answered n _)
  run_command-Answers Command.auto_add_config a h =
      returned (unfold get_auto_add_config in answered n _)
  run_command-Answers Command.setter a h = returned (answered n _)
  run_command-Answers Command.advert_name a h = returned settings-IsAnswered.0
  run_command-Answers Command.advert_latlon a h = returned settings-IsAnswered.1
  run_command-Answers Command.radio_params a h = returned settings-IsAnswered.2
  run_command-Answers Command.stats a h = returned settings-IsAnswered.3
  run_command-Answers Command.device_time a h = returned (unfold get_device_time in answered n _)
  run_command-Answers Command.path_hash a h = returned settings-IsAnswered.4
  run_command-Answers Command.default_scope a h = returned settings-IsAnswered.5
  run_command-Answers Command.set_default_scope a h = returned settings-IsAnswered.6
  run_command-Answers Command.channel a h = channel-Answers h
  run_command-Answers Command.set_channel_cmd a h = returned contacts-IsAnswered.0
  run_command-Answers Command.sync a h = returned contacts-IsAnswered.1
  run_command-Answers Command.contacts a h = cc
  run_command-Answers Command.path_reset a h = returned contacts-IsAnswered.2
  run_command-Answers Command.contact_removal a h = cc
  run_command-Answers Command.self_advert a h =
      returned (unfold self_advert_command in answered _ _)
  run_command-Answers Command.channel_text a h = returned sending-IsAnswered.0
  run_command-Answers Command.direct_text a h = returned direct-IsAnswered
  run_command-Answers Command.telemetry_req a h = returned requests-IsAnswered.0
  run_command-Answers Command.binary_req a h = returned requests-IsAnswered.1
  run_command-Answers Command.path_discovery_req a h = returned requests-IsAnswered.2
  run_command-Answers Command.anon_req a h = returned requests-IsAnswered.3
  run_command-Answers Command.control_data a h = returned sending-IsAnswered.1
  run_command-Answers Command.channel_data a h = returned sending-IsAnswered.2
  run_command-Answers Command.trace_path a h = returned sending-IsAnswered.3
  run_command-Answers Command.login_req a h = returned (repeater-IsAnswered Kind.login)
  run_command-Answers Command.status_req a h = returned (repeater-IsAnswered Kind.status)
  run_command-Answers Command.contact_upsert a h = returned contacts-IsAnswered.5
  run_command-Answers Command.advert_path a h = returned contacts-IsAnswered.3
  run_command-Answers Command.contact_by_key a h = returned contacts-IsAnswered.4
  run_command-Answers Command.unhandled a h = returned (answered n _)

-- Where the key of every channel is hex text, a command other than CMD_REMOVE_CONTACT and
-- CMD_GET_CONTACTS returns, on every path through its handler, with exactly one frame for its
-- sender and no push.
pub handle_command-Answers :
    (lib : Library) (env : Ambient) (n : Node) (b : ℕ) (rest : Bytes)
    → is_answered_once (command_of b) ≡ true
    → All (λ ch. (key : Bytes) × (lib.hex_to_bytes ch.key_hex ≡ some key)) n.channels
    → (o : Outcome) × (handle_command lib env n (b ∷ rest) ≡ some o) × IsAnswered o
unfolding handle_command
handle_command-Answers lib env n b rest a h =
    run_command-Answers lib env n (b ∷ rest) (command_of b) a h
