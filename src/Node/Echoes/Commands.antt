-- ===== src/Node/Echoes/Commands.antt =====
-- Every command of handleCommand in sdr-node/src/node.cpp but two queues for the transmitter only
-- packets whose payload it notes.
use meshcore_open_sdr.Shared.{
  Bool, List, arith, false, inl, inr, not, refl, some, true, ℕ, ◌*◌, ◌+◌, ◌^◌, ◌||◌, ◌∙◌, ◌≡◌,
}
use meshcore_open_sdr.Library.{Library, PayloadType, RouteType}
use meshcore_open_sdr.Node.Contacts.{
  add_update_contact, get_advert_path, get_channel, get_channel_at, get_contact_by_key,
  get_contacts, key_at, no_channel, remove_contact, reset_path, set_channel, sync_next_message,
}
use meshcore_open_sdr.Node.Datagrams.{send_channel_data, send_channel_data_at}
use meshcore_open_sdr.Node.Echoes.{
  NowMarks, NowQueues, builds, direct-Builds, either, flood-Builds, marked, nothing_new, one_more,
  quietly, send_text_to-Marks, send_to_contact-Queues,
}
use meshcore_open_sdr.Node.Files.{persist_channels, persist_contacts, save_prefs}
use meshcore_open_sdr.Node.Queues.{add_pending_req, cache_secret, enqueue_tx, hex_of, mark_seen}
use meshcore_open_sdr.Node.Requests.{
  anon_packet, anon_payload, handle_anon_request, or_anon, repeater_payload, repeater_request,
  repeater_request_to, repeater_type, request_to, send_binary_req, send_contact_request,
  send_path_discovery_req, send_telemetry_req,
}
use meshcore_open_sdr.Node.Sending.{
  direct_packet, find_by_prefix, flood_packet, is_flooded, path_bytes_of, request_payload,
  send_cli_to, send_direct_text, send_to_contact,
}
use meshcore_open_sdr.Node.Settings.{
  get_default_flood_scope, get_stats, set_advert_latlon, set_advert_name, set_default_flood_scope,
  set_path_hash_mode, set_radio_params,
}
use meshcore_open_sdr.Node.State.{
  Ambient, Contact, Kind, Node, Outcome, PendingReq, clock_u32, clock_us,
}
use meshcore_open_sdr.Shared.Lists.{drop, get_or, length}
use meshcore_open_sdr.Shared.Map.{find, find-insert_self, nat_key, str_key}
use meshcore_open_sdr.Shared.Scan.{bytes}
use meshcore_open_sdr.Shared.Tests.{
  Bool-cases, if_elim, if◌then◌else◌, leb, ltb, option_elim, option_elim_eq, ◌==◌,
}
use meshcore_open_sdr.Shared.Text.{Bytes, Str, is_empty, until_nul}
use meshcore_open_sdr.Wire.{slice}

module _ (lib : Library) (env : Ambient) (n : Node) (f : Bytes) where
  abbrev Now : Outcome → Type 0
  Now = NowMarks lib env n

  still :
      {n' : Node} {replies pushes : List Bytes}
      → n'.tx_queue ≡ n.tx_queue
      → Now (record { node = n'; replies = replies; pushes = pushes })
  still e = quietly lib env n e

  persist_contacts-tx_queue : (m : Node) → (persist_contacts lib env m).tx_queue ≡ m.tx_queue
  unfolding persist_contacts
  persist_contacts-tx_queue m = ground arith

  pub settings-Marks :
      Now (set_advert_name n f)
      × Now (set_advert_latlon lib n f)
      × Now (set_radio_params n f)
      × Now (get_stats env n f)
      × Now (set_path_hash_mode lib env n f)
      × Now (get_default_flood_scope n)
      × Now (set_default_flood_scope lib env n f)
  unfolding set_advert_name set_advert_latlon set_radio_params get_stats set_path_hash_mode
      get_default_flood_scope set_default_flood_scope save_prefs
  settings-Marks = grind (arith, still)

  pub channel-Marks : (o : Outcome) → get_channel lib n f ≡ some o → Now o
  unfolding get_channel get_channel_at
  channel-Marks o e = grind (arith, still)

  pub contacts-Marks :
      Now (set_channel lib env n f)
      × Now (sync_next_message n)
      × Now (get_contacts n f)
      × Now (reset_path lib env n f)
      × Now (remove_contact lib n f)
      × Now (get_advert_path lib n f)
      × Now (get_contact_by_key lib n f)
      × Now (add_update_contact lib env n f)
  unfolding set_channel persist_channels sync_next_message get_contacts reset_path remove_contact
      get_advert_path get_contact_by_key add_update_contact
  contacts-Marks = grind (arith, still, persist_contacts-tx_queue)

  expected :
      (r : PendingReq) (m : Node)
      → NowQueues lib env n m
      → NowQueues lib env n (add_pending_req r m)
  unfolding add_pending_req
  expected r m (nothing_new e) = nothing_new e
  expected r m (one_more payload bytes b q s) = one_more payload bytes b q s

  persisted : (m : Node) → NowQueues lib env n m → NowQueues lib env n (persist_contacts lib env m)
  unfolding persist_contacts
  persisted m (nothing_new e) = nothing_new (persist_contacts-tx_queue m ∙ e)
  persisted m (one_more payload bytes b q s) =
      one_more payload bytes b (persist_contacts-tx_queue m ∙ q)
        (elim (Bool-cases env.writable) [ inl e ↦ rw e s | inr e ↦ rw e s ])

  cli-Marks : (e : Str × Contact) → Now (send_cli_to lib env n f e)
  unfolding send_cli_to cache_secret
  cli-Marks (key, c) =
      let payload = request_payload lib n c (clock_u32 env) (until_nul (drop 13 f)) in
      option_elim_eq Now
        (send_to_contact lib env c PayloadType.request payload (cache_secret lib key c n))
        (λ _. still refl)
        (λ n'' e. record {
          queued =
              expected _ n''
                (send_to_contact-Queues lib env n c PayloadType.request payload _ n'' e refl);
        })

  pub direct-Marks : Now (send_direct_text lib env n f)
  unfolding send_direct_text
  direct-Marks =
      let target = find_by_prefix (slice 7 6 f) n.contacts in
      if_elim Now (ltb (length f) 14) (still refl) (
        if_elim Now (get_or f 1 0 == 1) (option_elim Now target (still refl) cli-Marks) (
          if_elim Now (get_or f 1 0 == 0)
            (option_elim Now target (still refl) (send_text_to-Marks lib env n f)) (still refl)))

  request_to-Marks :
      (key : Str) (c : Contact) (body : Bytes) (kind : Kind) (force : Bool)
      → Now (request_to lib env n key c body kind force)
  unfolding request_to add_pending_req mark_seen enqueue_tx cache_secret
  request_to-Marks key c body kind force =
      let payload = request_payload lib n c (clock_u32 env) body in
      let flooded = force || is_flooded c in
      let packet =
        if flooded
        then flood_packet lib n PayloadType.request payload
        else direct_packet lib PayloadType.request payload c.out_path c.out_path_len in
      option_elim_eq Now packet (λ _. still refl)
        (λ bytes e. record {
          queued =
              one_more payload bytes
                (either lib flooded payload bytes
                  (flood-Builds lib env n PayloadType.request payload bytes)
                  (direct-Builds lib env n c PayloadType.request payload bytes) e)
                refl (find-insert_self (hex_of lib payload) (clock_us env) n.seen);
        })

  request-Marks :
      (off : ℕ) (body : Bytes) (kind : Kind) (force : Bool)
      → Now (send_contact_request lib env n f off body kind force)
  unfolding send_contact_request
  request-Marks off body kind force = if_elim Now (ltb (length f) (off + 32)) (still refl) (
      option_elim Now (find (key_at lib off f) n.contacts) (still refl)
        (λ c. request_to-Marks (key_at lib off f) c body kind force))

  pub telemetry-Marks : Now (send_telemetry_req lib env n f)
  unfolding send_telemetry_req
  telemetry-Marks =
      if_elim Now (length f == 4) (still refl)
        (if_elim Now (ltb (length f) 36) (still refl) (request-Marks 4 _ Kind.telemetry false))

  pub binary-Marks : Now (send_binary_req lib env n f)
  unfolding send_binary_req
  binary-Marks = if_elim Now (ltb (length f) 34) (still refl) (request-Marks 1 _ Kind.binary false)

  pub path_discovery-Marks : Now (send_path_discovery_req lib env n f)
  unfolding send_path_discovery_req
  path_discovery-Marks =
      if_elim Now (ltb (length f) 34 || not (get_or f 1 0 == 0)) (still refl)
        (request-Marks 2 _ Kind.path_discovery true)

  pub anon-Marks : Now (handle_anon_request lib env n f)
  unfolding handle_anon_request cache_secret
  anon-Marks =
      let key = key_at lib 1 f in
      let c = or_anon env f (find key n.contacts) in
      let payload = anon_payload lib env n f c in
      if_elim Now (ltb (length f) 34) (still refl) (
        option_elim_eq Now (anon_packet lib c payload) (λ _. still refl)
          (λ bytes e. record {
            queued = persisted _ (
                expected _ _ (
                  marked lib env n payload bytes _
                    (either lib (c.out_path_len == 0xFF) payload bytes
                      (builds RouteType.direct PayloadType.anon_request _)
                      (builds RouteType.direct PayloadType.anon_request _) e)
                    refl));
          }))

  pub repeater-Marks : (kind : Kind) → Now (repeater_request lib env n f kind)
  unfolding repeater_request repeater_request_to cache_secret
  repeater-Marks kind =
      let key = key_at lib 1 f in
      if_elim Now (ltb (length f) 33) (still refl) (
        option_elim Now (find key n.contacts) (still refl) (λ c.
          option_elim_eq Now
            (send_to_contact lib env c (repeater_type kind) (repeater_payload lib env n f c kind)
              (cache_secret lib key c n))
            (λ _. still refl)
            (λ n'' e. record {
              queued = expected _ n'' (
                  send_to_contact-Queues lib env n c (repeater_type kind)
                    (repeater_payload lib env n f c kind) _ n'' e refl);
            })))

  channel_data_at-Marks : (off : ℕ) → Now (send_channel_data_at lib env n f off)
  unfolding send_channel_data_at
  channel_data_at-Marks off =
      let len = get_or f 2 0 in
      let ch = get_or n.channels (get_or f 1 0) no_channel in
      let kind = PayloadType.group_data in
      let data_type = get_or f off 0 + get_or f (off + 1) 0 * 2 ^ 8 in
      if_elim Now (ltb (length f) (off + 2)) (still refl) (
        if_elim Now (leb (length n.channels) (get_or f 1 0) || is_empty ch.key_hex) (still refl) (
          option_elim_eq Now (lib.build_group_data ch.key_hex data_type (drop (off + 2) f))
            (λ _. still refl)
            (λ payload _.
              option_elim_eq Now
                (if len == 0xFF
                  then flood_packet lib n kind payload
                  else direct_packet lib kind payload (slice 3 (path_bytes_of len) f) len)
                (λ _. still refl)
                (λ bytes e. record {
                  queued =
                      marked lib env n payload bytes n
                        (either lib (len == 0xFF) payload bytes
                          (flood-Builds lib env n kind payload bytes)
                          (builds RouteType.direct kind _) e)
                        refl;
                }))))

  pub channel_data-Marks : Now (send_channel_data lib env n f)
  unfolding send_channel_data
  channel_data-Marks =
      let size = path_bytes_of (get_or f 2 0) in
      if_elim Now (ltb (length f) 5) (still refl) (
        if_elim Now (get_or f 2 0 == 0xFF) (channel_data_at-Marks 3) (
          if_elim Now (ltb (length f) (3 + size + 2)) (still refl)
            (channel_data_at-Marks (3 + size))))
