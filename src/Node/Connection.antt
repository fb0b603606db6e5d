-- ===== src/Node/Connection.antt =====
-- What no command of handleCommand in sdr-node/src/node.cpp changes but three: the connection of
-- the app, the channels and the settings, with their files.
pub mod Dispatch
pub mod Pushes
pub mod Packets
use meshcore_open_sdr.Shared.{Bool, List, arith, some, ℕ, ◌≡◌}
use meshcore_open_sdr.Library.{Library, PayloadType}
use meshcore_open_sdr.Node.Air.{Settled, settled}
use meshcore_open_sdr.Node.Contacts.{
  add_update_contact, get_advert_path, get_channel, get_channel_at, get_contact_by_key,
  get_contacts, remove_contact, reset_path, sync_next_message,
}
use meshcore_open_sdr.Node.Datagrams.{
  send_channel_data, send_channel_data_at, send_control_data, send_trace_path,
}
use meshcore_open_sdr.Node.Files.{persist_contacts}
use meshcore_open_sdr.Node.Queues.{
  add_pending_ack, add_pending_req, cache_secret, enqueue_tx, mark_seen,
}
use meshcore_open_sdr.Node.Requests.{
  handle_anon_request, repeater_request, repeater_request_to, request_to, send_binary_req,
  send_contact_request, send_path_discovery_req, send_telemetry_req,
}
use meshcore_open_sdr.Node.Sending.{
  send_channel_text, send_cli_to, send_direct_text, send_self_advert, send_text_to, send_to_contact,
}
use meshcore_open_sdr.Node.Settings.{
  get_default_flood_scope, get_stats, set_advert_latlon, set_advert_name, set_radio_params,
}
use meshcore_open_sdr.Node.State.{Ambient, Contact, Kind, Node, Outcome}
use meshcore_open_sdr.Shared.Text.{Bytes, Str}

-- An outcome with the connection, the channels, the settings and their files as they were.
pub record Connected (rest : Settled) (o : Outcome) : Type 0 where
  pub same_rest : settled o.node ≡ rest

module _ (lib : Library) (env : Ambient) (n : Node) (f : Bytes) where
  abbrev Same : Outcome → Type 0
  Same = Connected (settled n)

  same :
      {m : Node} {replies pushes : List Bytes}
      → settled m ≡ settled n
      → Same (record { node = m; replies = replies; pushes = pushes })
  same e = record { same_rest = e }

  persist_contacts-settled : (m : Node) → settled (persist_contacts lib env m) ≡ settled m
  unfolding persist_contacts
  persist_contacts-settled m = ground arith

  pub settings-Connected :
      Same (set_advert_name n f)
      × Same (set_advert_latlon lib n f)
      × Same (set_radio_params n f)
      × Same (get_stats env n f)
      × Same (get_default_flood_scope n)
  unfolding set_advert_name set_advert_latlon set_radio_params get_stats get_default_flood_scope
  settings-Connected = grind (arith, same)

  pub channel-Connected : (o : Outcome) → get_channel lib n f ≡ some o → Same o
  unfolding get_channel get_channel_at
  channel-Connected o e = grind (arith, same)

  pub contacts-Connected :
      Same (sync_next_message n)
      × Same (get_contacts n f)
      × Same (reset_path lib env n f)
      × Same (remove_contact lib n f)
      × Same (get_advert_path lib n f)
      × Same (get_contact_by_key lib n f)
      × Same (add_update_contact lib env n f)
  unfolding sync_next_message get_contacts reset_path remove_contact get_advert_path
      get_contact_by_key add_update_contact
  contacts-Connected = grind (arith, same, persist_contacts-settled)

  pub send_self_advert-settled :
      (flooding : Bool) → settled (send_self_advert lib env flooding n) ≡ settled n
  unfolding send_self_advert enqueue_tx mark_seen
  send_self_advert-settled flooding = ground arith

  pub channel_text-Connected : Same (send_channel_text lib env n f)
  unfolding send_channel_text enqueue_tx mark_seen
  channel_text-Connected = ground arith

  text_to-Connected : (e : Str × Contact) → Same (send_text_to lib env n f e)
  unfolding send_text_to cache_secret add_pending_ack enqueue_tx mark_seen
  text_to-Connected (key, c) = ground arith

  send_to_contact-settled :
      (c : Contact) (kind : PayloadType) (p : Bytes) (m n' : Node)
      → send_to_contact lib env c kind p m ≡ some n'
      → settled n' ≡ settled m
  unfolding send_to_contact enqueue_tx mark_seen
  send_to_contact-settled c kind p m n' e = ground arith

  cli-Connected : (e : Str × Contact) → Same (send_cli_to lib env n f e)
  unfolding send_cli_to cache_secret add_pending_req
  cli-Connected (key, c) = grind (arith, send_to_contact-settled)

  pub direct-Connected : Same (send_direct_text lib env n f)
  unfolding send_direct_text
  direct-Connected = grind (arith, same, cli-Connected, text_to-Connected)

  request_to-Connected :
      (key : Str) (c : Contact) (body : Bytes) (kind : Kind) (force : Bool)
      → Same (request_to lib env n key c body kind force)
  unfolding request_to add_pending_req mark_seen enqueue_tx cache_secret
  request_to-Connected key c body kind force = ground arith

  request-Connected :
      (off : ℕ) (body : Bytes) (kind : Kind) (force : Bool)
      → Same (send_contact_request lib env n f off body kind force)
  unfolding send_contact_request
  request-Connected off body kind force = grind (arith, request_to-Connected)

  pub requests-Connected :
      Same (send_telemetry_req lib env n f)
      × Same (send_binary_req lib env n f)
      × Same (send_path_discovery_req lib env n f)
  unfolding send_telemetry_req send_binary_req send_path_discovery_req
  requests-Connected = grind (arith, same, request-Connected)

  pub anon-Connected : Same (handle_anon_request lib env n f)
  unfolding handle_anon_request cache_secret add_pending_req mark_seen enqueue_tx
  anon-Connected = grind (arith, same, persist_contacts-settled)

  pub repeater-Connected : (kind : Kind) → Same (repeater_request lib env n f kind)
  unfolding repeater_request repeater_request_to cache_secret add_pending_req
  repeater-Connected kind = grind (arith, send_to_contact-settled)

  pub datagrams-Connected :
      Same (send_channel_data lib env n f)
      × Same (send_control_data lib n f)
      × Same (send_trace_path lib env n f)
  unfolding send_channel_data send_channel_data_at send_control_data send_trace_path enqueue_tx
      mark_seen
  datagrams-Connected = ground arith
