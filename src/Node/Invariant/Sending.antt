-- ===== src/Node/Invariant/Sending.antt =====
-- What the app sends into the mesh, of sdr-node/src/node.cpp, keeps the invariant of the node.
use meshcore_open_sdr.Shared.{Bool, [], arith, some, ℕ, ◌∷◌, ◌≡◌, ◌≤◌}
use meshcore_open_sdr.Library.{Library, PayloadType}
use meshcore_open_sdr.Node.Contacts.{key_at}
use meshcore_open_sdr.Node.Datagrams.{
  note_trace, send_channel_data, send_channel_data_at, send_control_data, send_trace_path,
}
use meshcore_open_sdr.Node.Invariant.{
  IsSound, Keeps, add_pending_ack-IsSound, add_pending_req-IsSound, cache_secret-IsSound,
  enqueue_tx-IsSound, keep, mark_seen-IsSound, persist_contacts-IsSound, sent-IsSound,
}
use meshcore_open_sdr.Node.Queues.{add_pending_req, cache_secret, enqueue_tx}
use meshcore_open_sdr.Node.Requests.{
  handle_anon_request, or_anon, repeater_payload, repeater_request, repeater_request_to,
  repeater_type, request_to, send_binary_req, send_contact_request, send_path_discovery_req,
  send_telemetry_req,
}
use meshcore_open_sdr.Node.Sending.{
  find_by_prefix, request_payload, self_advert_command, send_channel_text, send_cli_to,
  send_direct_text, send_self_advert, send_text_to, send_to_contact,
}
use meshcore_open_sdr.Node.State.{Ambient, Contact, Kind, Node, PendingReq, clock_u32, clock_us}
use meshcore_open_sdr.Shared.Lists.{drop, get_or, length, length-drop}
use meshcore_open_sdr.Shared.Map.{
  IsSorted, Map, find, insert, insert-IsSorted, length-insert, nat_key, str_key,
}
use meshcore_open_sdr.Shared.Tests.{if_elim, ltb, option_elim, option_elim_eq, ◌==◌}
use meshcore_open_sdr.Shared.Text.{Bytes, Str, until_nul}
use meshcore_open_sdr.Wire.{get_u32, slice}

send_to_contact-IsSound :
    (lib : Library) (env : Ambient) (c : Contact) (kind : PayloadType) (p : Bytes) (n n' : Node)
    → send_to_contact lib env c kind p n ≡ some n'
    → IsSound n
    → IsSound n'
unfolding send_to_contact
send_to_contact-IsSound lib env c kind p n n' e s = grind (arith, sent-IsSound)

pub send_channel_text-IsSound :
    (lib : Library) (env : Ambient) (n : Node) (f : Bytes)
    → IsSound n
    → Keeps (send_channel_text lib env n f)
unfolding send_channel_text
send_channel_text-IsSound lib env n f s = grind (arith, sent-IsSound)

send_text_to-IsSound :
    (lib : Library) (env : Ambient) (n : Node) (f : Bytes) (e : Str × Contact)
    → IsSound n
    → Keeps (send_text_to lib env n f e)
unfolding send_text_to
send_text_to-IsSound lib env n f (key, c) s = grind (
  arith,
  cache_secret-IsSound lib key c n s,
  enqueue_tx-IsSound,
  add_pending_ack-IsSound,
  mark_seen-IsSound,
)

-- A request that was sent to a contact and is now waited for.
expected-IsSound :
    (lib : Library) (env : Ambient) (n : Node) (key : Str) (c : Contact) (kind : PayloadType)
    (p : Bytes) (r : PendingReq) (n' : Node)
    → send_to_contact lib env c kind p (cache_secret lib key c n) ≡ some n'
    → IsSound n
    → IsSound (add_pending_req r n')
expected-IsSound lib env n key c kind p r n' e s =
    add_pending_req-IsSound r n'
      (send_to_contact-IsSound lib env c kind p _ n' e (cache_secret-IsSound lib key c n s))

send_cli_to-IsSound :
    (lib : Library) (env : Ambient) (n : Node) (f : Bytes) (e : Str × Contact)
    → IsSound n
    → Keeps (send_cli_to lib env n f e)
unfolding send_cli_to
send_cli_to-IsSound lib env n f (key, c) s =
    let p = request_payload lib n c (clock_u32 env) (until_nul (drop 13 f)) in
    option_elim_eq Keeps
      (send_to_contact lib env c PayloadType.request p (cache_secret lib key c n))
      (λ _. keep (cache_secret-IsSound lib key c n s))
      (λ n' e. keep (expected-IsSound lib env n key c PayloadType.request p _ n' e s))

pub send_direct_text-IsSound :
    (lib : Library) (env : Ambient) (n : Node) (f : Bytes)
    → IsSound n
    → Keeps (send_direct_text lib env n f)
unfolding send_direct_text
send_direct_text-IsSound lib env n f s =
    let target = find_by_prefix (slice 7 6 f) n.contacts in
    if_elim Keeps (ltb (length f) 14) (keep s) (
      if_elim Keeps (get_or f 1 0 == 1)
        (option_elim Keeps target (keep s) (λ e. send_cli_to-IsSound lib env n f e s))
        (if_elim Keeps (get_or f 1 0 == 0)
          (option_elim Keeps target (keep s) (λ e. send_text_to-IsSound lib env n f e s)) (keep s)))

pub send_self_advert-IsSound :
    (lib : Library) (env : Ambient) (b : Bool) (n : Node)
    → IsSound n
    → IsSound (send_self_advert lib env b n)
unfolding send_self_advert
send_self_advert-IsSound lib env b n s = grind (arith, sent-IsSound)

pub self_advert-IsSound :
    (lib : Library) (env : Ambient) (n : Node) (f : Bytes)
    → IsSound n
    → Keeps (self_advert_command lib env n f)
unfolding self_advert_command
self_advert-IsSound lib env n f s = keep (send_self_advert-IsSound lib env _ n s)

pub send_control_data-IsSound :
    (lib : Library) (n : Node) (f : Bytes) → IsSound n → Keeps (send_control_data lib n f)
unfolding send_control_data
send_control_data-IsSound lib n f s = grind (arith, enqueue_tx-IsSound)

send_channel_data_at-IsSound :
    (lib : Library) (env : Ambient) (n : Node) (f : Bytes) (off : ℕ)
    → IsSound n
    → Keeps (send_channel_data_at lib env n f off)
unfolding send_channel_data_at
send_channel_data_at-IsSound lib env n f off s = grind (arith, sent-IsSound)

pub send_channel_data-IsSound :
    (lib : Library) (env : Ambient) (n : Node) (f : Bytes)
    → IsSound n
    → Keeps (send_channel_data lib env n f)
unfolding send_channel_data
send_channel_data-IsSound lib env n f s = grind (arith, send_channel_data_at-IsSound)

drop-IsSorted : (m : Map ℕ ℕ) → IsSorted m → IsSorted (drop 1 m)
drop-IsSorted [] s = tt
drop-IsSorted ((k, v) ∷ m) s = s.1

note_trace_sound :
    (tag at : ℕ) (m : Map ℕ ℕ)
    → length m ≤ 32
    → IsSorted m
    → (length (note_trace tag at m) ≤ 32) × IsSorted (note_trace tag at m)
unfolding note_trace
note_trace_sound tag at m b s = ground (
  arith,
  length-insert tag at m,
  insert-IsSorted tag at m s,
  drop-IsSorted (insert tag at m),
  length-drop 1 (insert tag at m),
)

pub send_trace_path-IsSound :
    (lib : Library) (env : Ambient) (n : Node) (f : Bytes)
    → IsSound n
    → Keeps (send_trace_path lib env n f)
unfolding send_trace_path enqueue_tx
send_trace_path-IsSound lib env n f s = ground (
  arith,
  note_trace_sound (get_u32 f 1) (clock_us env) n.sent_traces s.traces_bound s.traces_sorted,
)

request_to-IsSound :
    (lib : Library) (env : Ambient) (n : Node) (key : Str) (c : Contact) (body : Bytes)
    (kind : Kind) (force : Bool)
    → IsSound n
    → Keeps (request_to lib env n key c body kind force)
unfolding request_to
request_to-IsSound lib env n key c body kind force s = grind (
  arith,
  cache_secret-IsSound lib key c n s,
  enqueue_tx-IsSound,
  add_pending_req-IsSound,
  mark_seen-IsSound,
)

send_contact_request-IsSound :
    (lib : Library) (env : Ambient) (n : Node) (f : Bytes) (off : ℕ) (body : Bytes) (kind : Kind)
    (force : Bool)
    → IsSound n
    → Keeps (send_contact_request lib env n f off body kind force)
unfolding send_contact_request
send_contact_request-IsSound lib env n f off body kind force s =
    if_elim Keeps _ (keep s)
      (option_elim Keeps _ (keep s) (λ c. request_to-IsSound lib env n _ c body kind force s))

module _ (lib : Library) (env : Ambient) (n : Node) (f : Bytes) (s : IsSound n) where
  pub telemetry-IsSound : Keeps (send_telemetry_req lib env n f)
  unfolding send_telemetry_req
  telemetry-IsSound = if_elim Keeps (length f == 4) (keep s) (
      if_elim Keeps (ltb (length f) 36) (keep s)
        (send_contact_request-IsSound lib env n f 4 _ _ _ s))

  pub binary-IsSound : Keeps (send_binary_req lib env n f)
  unfolding send_binary_req
  binary-IsSound = if_elim Keeps _ (keep s) (send_contact_request-IsSound lib env n f 1 _ _ _ s)

  pub path_discovery-IsSound : Keeps (send_path_discovery_req lib env n f)
  unfolding send_path_discovery_req
  path_discovery-IsSound =
      if_elim Keeps _ (keep s) (send_contact_request-IsSound lib env n f 2 _ _ _ s)

  repeater_request_to-IsSound :
      (key : Str) (c : Contact) (kind : Kind) → Keeps (repeater_request_to lib env n f key c kind)
  unfolding repeater_request_to
  repeater_request_to-IsSound key c kind =
      let p = repeater_payload lib env n f c kind in
      option_elim_eq Keeps
        (send_to_contact lib env c (repeater_type kind) p (cache_secret lib key c n))
        (λ _. keep (cache_secret-IsSound lib key c n s))
        (λ n' e. keep (expected-IsSound lib env n key c (repeater_type kind) p _ n' e s))

  pub repeater_request-IsSound : (kind : Kind) → Keeps (repeater_request lib env n f kind)
  unfolding repeater_request
  repeater_request-IsSound kind =
      if_elim Keeps _ (keep s)
        (option_elim Keeps _ (keep s) (λ c. repeater_request_to-IsSound _ c kind))

  pub anon_request-IsSound : Keeps (handle_anon_request lib env n f)
  unfolding handle_anon_request
  anon_request-IsSound =
      let cached =
        cache_secret-IsSound lib (key_at lib 1 f) (or_anon env f (find (key_at lib 1 f) n.contacts))
          n s in
      if_elim Keeps _ (keep s) (
        option_elim Keeps _ (keep cached) (λ bytes. keep (
          persist_contacts-IsSound lib env _ (
            add_pending_req-IsSound _ _
              (enqueue_tx-IsSound _ _ (mark_seen-IsSound _ _ _ cached))))))
