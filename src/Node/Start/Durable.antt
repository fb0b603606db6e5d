-- ===== src/Node/Start/Durable.antt =====
-- A daemon of sdr-node/src that ends at any time: what the files of the running node hold of its
-- channels and settings.
use meshcore_open_sdr.Shared.{
  List, [], arith, inl, inr, not, refl, some, true, ℕ, ◌&&◌, ◌||◌, ◌≡◌, ◌⊎◌,
}
use meshcore_open_sdr.Config.Channels.{load_channels}
use meshcore_open_sdr.Config.Channels.RoundTrip.{IsWritable, load_channels-save_channels}
use meshcore_open_sdr.Library.{HexDigits, Library}
use meshcore_open_sdr.Node.Air.{Settled, settled}
use meshcore_open_sdr.Node.Command.{handle_command}
use meshcore_open_sdr.Node.Connection.Dispatch.{handle_command-After, on_rx_packet-After}
use meshcore_open_sdr.Node.Contacts.{max_channels, set_channel}
use meshcore_open_sdr.Node.Files.{persist_channels, prefs_text, save_prefs}
use meshcore_open_sdr.Node.Loading.{load_prefs}
use meshcore_open_sdr.Node.Loading.PrefsFile.{HasPrefs, load_prefs-prefs_text, prefs_of}
use meshcore_open_sdr.Node.Receive.{on_rx_packet}
use meshcore_open_sdr.Node.Settings.{set_default_flood_scope, set_path_hash_mode}
use meshcore_open_sdr.Node.Start.{start}
use meshcore_open_sdr.Node.Start.Again.{disk_of}
use meshcore_open_sdr.Node.State.{
  Ambient, ChannelDef, Identity, Node, Outcome, RadioState, RxPacket, Settings,
}
use meshcore_open_sdr.Shared.Lists.{All, get_or, length}
use meshcore_open_sdr.Shared.Tests.{if_elim, leb, ltb, ◌==◌}
use meshcore_open_sdr.Shared.Text.{Bytes, is_empty, until_nul}
use meshcore_open_sdr.Wire.{slice}
use mathlib.Core.Path.{subst}

module _ (lib : Library) (mode : ℕ) where
  -- What the files give back is what the node has.
  abbrev Agrees : Settled → Type 0
  Agrees rest =
      (load_channels (some rest.channels_file) ≡ rest.channels)
      × (load_prefs lib mode (some rest.prefs_file) ≡ record {
        path_hash_mode = rest.path_hash_mode;
        scope_name = rest.scope_name;
        scope_key = rest.scope_key;
      })

  module _ (env : Ambient) (n : Node) (f : Bytes) (writable : env.writable ≡ true)
      (q : Agrees (settled n)) where
    persist_channels-Agrees :
        (m : Node)
        → load_prefs lib mode (some m.files.prefs) ≡ prefs_of m
        → All IsWritable m.channels
        → Agrees (settled (persist_channels env m))
    unfolding persist_channels
    persist_channels-Agrees m e h = rw writable (load_channels-save_channels m.channels h, e)

    persist_channels-kept : (m : Node) → (persist_channels env m).channels ≡ m.channels
    unfolding persist_channels
    persist_channels-kept m = ground arith

    save_prefs-Agrees :
        (m : Node)
        → HexDigits lib
        → load_channels (some m.files.channels) ≡ m.channels
        → HasPrefs m
        → Agrees (settled (save_prefs lib env m))
    unfolding save_prefs
    save_prefs-Agrees m hex e h = rw writable (e, load_prefs-prefs_text lib hex m h mode)

    -- Outcomes with channels, or settings, that a file can express agree.
    abbrev ChannelsStay : Outcome → Type 0
    ChannelsStay o = All IsWritable o.node.channels → Agrees (settled o.node)

    abbrev PrefsStay : Outcome → Type 0
    PrefsStay o = HasPrefs o.node → Agrees (settled o.node)

    set_channel-Agrees : ChannelsStay (set_channel lib env n f)
    unfolding set_channel
    set_channel-Agrees =
        if_elim ChannelsStay (leb 50 (length f) && ltb (get_or f 1 0) max_channels)
          (λ h. stored_channels _ h) (λ h. q)
      where
        stored_channels :
            (chs : List ChannelDef)
            → All IsWritable (persist_channels env (record n { channels = chs })).channels
            → Agrees (settled (persist_channels env (record n { channels = chs })))
        stored_channels chs h =
            persist_channels-Agrees (record n { channels = chs }) q.1
              (subst (All IsWritable) (persist_channels-kept (record n { channels = chs })) h)

    expressible : (m : Node) → HasPrefs (save_prefs lib env m) → HasPrefs m
    unfolding save_prefs
    expressible m h =
        let k : HasPrefs (record m { files = record m.files { prefs = prefs_text lib m } }) =
          rw writable at h in
        record { mode_byte = k.mode_byte; scope = k.scope }

    saved_prefs :
        HexDigits lib
        → (m : Node) → m.channels ≡ n.channels
        → m.files ≡ n.files
        → HasPrefs (save_prefs lib env m)
        → Agrees (settled (save_prefs lib env m))
    unfolding save_prefs
    saved_prefs hex m same files h =
        save_prefs-Agrees m hex (rw (same, files) q.0) (expressible m h)

    set_path_hash_mode-Agrees : HexDigits lib → PrefsStay (set_path_hash_mode lib env n f)
    unfolding set_path_hash_mode
    set_path_hash_mode-Agrees hex =
        if_elim PrefsStay (ltb (length f) 3 || not (get_or f 1 0 == 0)) (λ h. q)
          (if_elim PrefsStay (leb 3 (get_or f 2 0)) (λ h. q)
            (λ h. saved_prefs hex (record n { path_hash_mode = get_or f 2 0 }) refl refl h))

    set_scope-Agrees : HexDigits lib → PrefsStay (set_default_flood_scope lib env n f)
    unfolding set_default_flood_scope
    set_scope-Agrees hex =
        let name = until_nul (slice 1 31 f) in
        if_elim PrefsStay (leb 48 (length f))
          (if_elim PrefsStay (is_empty name || leb 31 (length name)) (λ h. q)
            (λ h.
              saved_prefs hex (record n { scope_name = name; scope_key = slice 32 16 f }) refl refl
                h))
          (λ h. saved_prefs hex (record n { scope_name = []; scope_key = [] }) refl refl h)

-- A node started on the files of a running one has its channels, its path hash mode and its flood
-- scope.
unfoldable pub IsDurable : Library → Settings → ℕ → Identity → RadioState → ℕ → Node → Type 0
IsDurable lib cfg mode id radio now n =
    let n' = start lib cfg mode id radio now (disk_of n.files) in
    (n'.channels ≡ n.channels) × (prefs_of n' ≡ prefs_of n)

module _ (lib : Library) (cfg : Settings) (mode : ℕ) (id : Identity) (radio : RadioState)
    (now : ℕ) where
  -- Where the files can be written, a daemon that ends after any command or packet, not only in an
  -- orderly way, has on its next start, with any configuration, the channels, the path hash mode
  -- and the flood scope that it ended with, if it would have had them before; they have to be such
  -- as the files can express.
  pub handled-IsDurable :
      (env : Ambient) (n : Node) (f : Bytes) (pkt : RxPacket) (o : Outcome)
      → HexDigits lib
      → env.writable ≡ true
      → IsDurable lib cfg mode id radio now n
      → (handle_command lib env n f ≡ some o) ⊎ (on_rx_packet lib env pkt n ≡ some o)
      → All IsWritable o.node.channels
      → HasPrefs o.node
      → IsDurable lib cfg mode id radio now o.node
  unfolding IsDurable start
  handled-IsDurable env n f pkt o hex writable q (inl e) channels prefs =
      handle_command-After (Agrees lib mode) lib env n q f o
        (record {
          channel = λ e'.
              subst (ChannelsStay lib mode env n f writable q) e'
                (set_channel-Agrees lib mode env n f writable q) channels;
          mode = λ e'.
              subst (PrefsStay lib mode env n f writable q) e'
                (set_path_hash_mode-Agrees lib mode env n f writable q hex) prefs;
          scope = λ e'.
              subst (PrefsStay lib mode env n f writable q) e'
                (set_scope-Agrees lib mode env n f writable q hex) prefs;
        })
        e
  handled-IsDurable env n f pkt o hex writable q (inr e) channels prefs =
      on_rx_packet-After (Agrees lib mode) lib env n q pkt o e
