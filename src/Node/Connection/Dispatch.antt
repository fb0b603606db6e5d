-- ===== src/Node/Connection/Dispatch.antt =====
-- handleCommand and onRxPacket of sdr-node/src/node.cpp as a whole: what they leave alone, the
-- connection of the app first.
use meshcore_open_sdr.Shared.{[], ap, arith, refl, some, sym, ◌∙◌, ◌∷◌, ◌≡◌}
use meshcore_open_sdr.Library.{Library}
use meshcore_open_sdr.Node.Air.{Leaves, Settled, settled}
use meshcore_open_sdr.Node.Air.Packets.{on_rx_packet-Leaves}
use meshcore_open_sdr.Node.Command.{Command, command_of, handle_command, run_command}
use meshcore_open_sdr.Node.Connection.{
  Connected, anon-Connected, channel-Connected, channel_text-Connected, contacts-Connected,
  datagrams-Connected, direct-Connected, repeater-Connected, requests-Connected,
  send_self_advert-settled, settings-Connected,
}
use meshcore_open_sdr.Node.Contacts.{set_channel}
use meshcore_open_sdr.Node.Files.{persist_channels, save_prefs}
use meshcore_open_sdr.Node.Receive.{on_rx_packet}
use meshcore_open_sdr.Node.Sending.{self_advert_command}
use meshcore_open_sdr.Node.Settings.{
  get_auto_add_config, get_batt_and_storage, get_custom_var, get_device_time,
  set_default_flood_scope, set_path_hash_mode,
}
use meshcore_open_sdr.Node.State.{Ambient, Kind, Node, Outcome, RxPacket}
use meshcore_open_sdr.Shared.Text.{Bytes}
use mathlib.Core.Option.{some-injective}
use mathlib.Core.Path.{subst}

-- A predicate on what no packet changes holds after any command if it holds after those that change
-- it.
module _ (Q : Settled → Type 0) (lib : Library) (env : Ambient) (n : Node) (q : Q (settled n)) where
  abbrev After : Outcome → Type 0
  After o = Q (settled o.node)

  -- The commands that change a channel, the path hash mode or the flood scope.
  pub record Setters (f : Bytes) (o : Outcome) : Type 0 where
    pub channel : set_channel lib env n f ≡ o → After o
    pub mode : set_path_hash_mode lib env n f ≡ o → After o
    pub scope : set_default_flood_scope lib env n f ≡ o → After o

  moved : {o : Outcome} → Connected (settled n) o → After o
  moved k = subst Q (sym k.same_rest) q

  unmoved : {m o : Outcome} → some m ≡ some o → Connected (settled n) m → After o
  unmoved {m} e k = subst After (some-injective _ _ e) (moved {o = m} k)

  run_command-After :
      (f : Bytes) (cmd : Command) (o : Outcome)
      → Setters f o
      → run_command lib env n f cmd ≡ some o
      → After o
  unfolding run_command get_custom_var get_batt_and_storage get_auto_add_config get_device_time
      self_advert_command
  run_command-After f Command.device_query o s e = unmoved e (record { same_rest = refl })
  run_command-After f Command.app_start o s e = unmoved e (record { same_rest = refl })
  run_command-After f Command.custom_var o s e = unmoved e (record { same_rest = refl })
  run_command-After f Command.batt_and_storage o s e = unmoved e (record { same_rest = refl })
  run_command-After f Command.auto_add_config o s e = unmoved e (record { same_rest = refl })
  run_command-After f Command.setter o s e = unmoved e (record { same_rest = refl })
  run_command-After f Command.advert_name o s e = unmoved e ((settings-Connected lib env n f).0)
  run_command-After f Command.advert_latlon o s e = unmoved e ((settings-Connected lib env n f).1)
  run_command-After f Command.radio_params o s e = unmoved e ((settings-Connected lib env n f).2)
  run_command-After f Command.stats o s e = unmoved e ((settings-Connected lib env n f).3)
  run_command-After f Command.device_time o s e = unmoved e (record { same_rest = refl })
  run_command-After f Command.path_hash o s e = s.mode (some-injective _ _ e)
  run_command-After f Command.default_scope o s e = unmoved e ((settings-Connected lib env n f).4)
  run_command-After f Command.set_default_scope o s e = s.scope (some-injective _ _ e)
  run_command-After f Command.channel o s e = moved (channel-Connected lib env n f o e)
  run_command-After f Command.set_channel_cmd o s e = s.channel (some-injective _ _ e)
  run_command-After f Command.sync o s e = unmoved e ((contacts-Connected lib env n f).0)
  run_command-After f Command.contacts o s e = unmoved e ((contacts-Connected lib env n f).1)
  run_command-After f Command.path_reset o s e = unmoved e ((contacts-Connected lib env n f).2)
  run_command-After f Command.contact_removal o s e = unmoved e ((contacts-Connected lib env n f).3)
  run_command-After f Command.advert_path o s e = unmoved e ((contacts-Connected lib env n f).4)
  run_command-After f Command.contact_by_key o s e = unmoved e ((contacts-Connected lib env n f).5)
  run_command-After f Command.contact_upsert o s e = unmoved e ((contacts-Connected lib env n f).6)
  run_command-After f Command.self_advert o s e =
      unmoved e (record { same_rest = send_self_advert-settled lib env n f _ })
  run_command-After f Command.channel_text o s e = unmoved e (channel_text-Connected lib env n f)
  run_command-After f Command.direct_text o s e = unmoved e (direct-Connected lib env n f)
  run_command-After f Command.telemetry_req o s e = unmoved e ((requests-Connected lib env n f).0)
  run_command-After f Command.binary_req o s e = unmoved e ((requests-Connected lib env n f).1)
  run_command-After f Command.path_discovery_req o s e =
      unmoved e ((requests-Connected lib env n f).2)
  run_command-After f Command.anon_req o s e = unmoved e (anon-Connected lib env n f)
  run_command-After f Command.channel_data o s e = unmoved e ((datagrams-Connected lib env n f).0)
  run_command-After f Command.control_data o s e = unmoved e ((datagrams-Connected lib env n f).1)
  run_command-After f Command.trace_path o s e = unmoved e ((datagrams-Connected lib env n f).2)
  run_command-After f Command.login_req o s e =
      unmoved e (repeater-Connected lib env n f Kind.login)
  run_command-After f Command.status_req o s e =
      unmoved e (repeater-Connected lib env n f Kind.status)
  run_command-After f Command.unhandled o s e = unmoved e (record { same_rest = refl })

  pub handle_command-After :
      (f : Bytes) (o : Outcome) → Setters f o → handle_command lib env n f ≡ some o → After o
  unfolding handle_command
  handle_command-After [] o s e = unmoved {o = o} e (record { same_rest = refl })
  handle_command-After (b ∷ rest) o s e = run_command-After (b ∷ rest) (command_of b) o s e

  pub on_rx_packet-After :
      (pkt : RxPacket) (o : Outcome) → on_rx_packet lib env pkt n ≡ some o → After o
  on_rx_packet-After pkt o e = Leaves.holds (
      on_rx_packet-Leaves (λ seen queue rest. Q rest) (λ seen seen' queue rest h. h) lib env pkt
        (λ seen queue rest key hex h. h) n o e q)

setters-app :
    (lib : Library) (env : Ambient) (n : Node) (f : Bytes)
    → ((set_channel lib env n f).node.app ≡ n.app)
      × ((set_path_hash_mode lib env n f).node.app ≡ n.app)
      × ((set_default_flood_scope lib env n f).node.app ≡ n.app)
unfolding set_channel persist_channels set_path_hash_mode set_default_flood_scope save_prefs
setters-app lib env n f = ground arith

module _ (lib : Library) (env : Ambient) (n : Node) where
  pub handle_command-app :
      (f : Bytes) (o : Outcome) → handle_command lib env n f ≡ some o → o.node.app ≡ n.app
  handle_command-app f o e =
      let (channel, mode, scope) = setters-app lib env n f in
      handle_command-After (λ rest. rest.app ≡ n.app) lib env n refl f o
        (record {
          channel = λ e. ap (λ (o : Outcome). o.node.app) (sym e) ∙ channel;
          mode = λ e. ap (λ (o : Outcome). o.node.app) (sym e) ∙ mode;
          scope = λ e. ap (λ (o : Outcome). o.node.app) (sym e) ∙ scope;
        })
        e

  pub on_rx_packet-app :
      (pkt : RxPacket) (o : Outcome) → on_rx_packet lib env pkt n ≡ some o → o.node.app ≡ n.app
  on_rx_packet-app pkt o e = on_rx_packet-After (λ rest. rest.app ≡ n.app) lib env n refl pkt o e
