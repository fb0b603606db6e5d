-- ===== src/Node/Air.antt =====
-- What onRxPacket of sdr-node/src/node.cpp does to `seen_`, to the queue of the transmitter and to
-- what no packet changes: a predicate on these three is kept by every branch if an answer on
-- the air keeps it. Here: what is addressed to this node.
pub mod Payloads
pub mod Packets
use meshcore_open_sdr.Shared.{Bool, List, [], inl, inr, not, ℕ, ◌&&◌, ◌++◌, ◌∷◌}
use meshcore_open_sdr.Library.{Library}
use meshcore_open_sdr.Node.Answers.{
  PathReturn, accept_path, confirm, learn_path, not_for_us, on_ack, on_path, on_response, or_new,
  parse_path, take_ack, try_response, use_extra,
}
use meshcore_open_sdr.Node.Files.{persist_contacts}
use meshcore_open_sdr.Node.Queues.{queue_for_app}
use meshcore_open_sdr.Node.Responses.{cli_message, deliver, on_contact_response, take_pending}
use meshcore_open_sdr.Node.State.{Ambient, ChannelDef, Contact, Kind, Node, Outcome, RxPacket}
use meshcore_open_sdr.Shared.Lists.{length}
use meshcore_open_sdr.Shared.Map.{Map, find, insert, nat_key, str_key}
use meshcore_open_sdr.Shared.Tests.{Bool-cases, if_elim, leb, ltb, option_elim, ◌==◌}
use meshcore_open_sdr.Shared.Text.{Bytes, Str, is_empty}
use meshcore_open_sdr.Wire.{get_u32}

-- What no packet changes: the connection of the app, and the channels and settings with their
-- files.
pub record Settled : Type 0 where
  pub app : Bool
  pub channels : List ChannelDef
  pub path_hash_mode : ℕ
  pub scope_name : Str
  pub scope_key : Bytes
  pub channels_file : Str
  pub prefs_file : Str

abbrev pub settled : Node → Settled
settled n = record {
  app = n.app;
  channels = n.channels;
  path_hash_mode = n.path_hash_mode;
  scope_name = n.scope_name;
  scope_key = n.scope_key;
  channels_file = n.files.channels;
  prefs_file = n.files.prefs;
}

abbrev pub Holds : (Map Str ℕ → List Str → Settled → Type 0) → Node → Type 0
Holds P n = P n.seen n.tx_queue (settled n)

-- A payload that is noted at a time while a packet is queued.
abbrev pub IsClosed : (Map Str ℕ → List Str → Settled → Type 0) → ℕ → Type 0
IsClosed P at =
    (seen : Map Str ℕ) (queue : List Str) (rest : Settled) (key hex : Str)
    → P seen queue rest
    → P (insert key at seen) (queue ++ (hex ∷ [])) rest

-- A handler's outcome is a node of which the predicate holds.
pub record Leaves (P : Map Str ℕ → List Str → Settled → Type 0) (o : Outcome) : Type 0 where
  pub holds : Holds P o.node

module _ (P : Map Str ℕ → List Str → Settled → Type 0) where
  abbrev Kept : Outcome → Type 0
  Kept = Leaves P

  pub recall :
      {n : Node} {replies pushes : List Bytes}
      → Holds P n
      → Kept (record { node = n; replies = replies; pushes = pushes })
  recall s = record { holds = s }

  pub queue_for_app-Leaves : (f : Bytes) (n : Node) → Holds P n → Kept (queue_for_app f n)
  unfolding queue_for_app
  queue_for_app-Leaves f n s = recall s

  pub persist_contacts-Holds :
      (lib : Library) (env : Ambient) (n : Node) → Holds P n → Holds P (persist_contacts lib env n)
  unfolding persist_contacts
  persist_contacts-Holds lib env n s = elim (Bool-cases env.writable) [
    | inl e ↦ rw e s
    | inr e ↦ rw e s
  ]

  deliver-Leaves :
      (c : Contact) (body : Bytes) (tag now : ℕ) (kind : Kind) (n : Node)
      → Holds P n
      → Kept (deliver c body tag now kind n)
  unfolding deliver
  deliver-Leaves c body tag now Kind.cli n s = queue_for_app-Leaves (cli_message c body now) n s
  deliver-Leaves c body tag now Kind.login n s = recall s
  deliver-Leaves c body tag now Kind.telemetry n s = recall s
  deliver-Leaves c body tag now Kind.path_discovery n s = recall s
  deliver-Leaves c body tag now Kind.binary n s = recall s
  deliver-Leaves c body tag now Kind.anon n s = recall s
  deliver-Leaves c body tag now Kind.status n s = recall s

  on_contact_response-Leaves :
      (c : Contact) (body : Bytes) (now : ℕ) (n : Node)
      → Holds P n
      → Kept (on_contact_response c body now n)
  unfolding on_contact_response
  on_contact_response-Leaves c body now n s = if_elim Kept (ltb (length body) 4) (recall s) (
      option_elim Kept (take_pending c.pub_key (get_u32 body 0) now n.pending_reqs) (recall s)
        (λ e. if_elim Kept n.app (deliver-Leaves c body _ now e.0.kind _ s) (recall s)))

  confirm-Leaves : (value now : ℕ) (n : Node) → Holds P n → Kept (confirm value now n)
  unfolding confirm
  confirm-Leaves value now n s =
      option_elim Kept (take_ack value n.pending_acks) (recall s) (λ e. recall s)

  use_extra-Leaves :
      (key : Str) (x : PathReturn) (pkt : RxPacket) (n : Node)
      → Holds P n
      → Kept (use_extra key x pkt n)
  unfolding use_extra
  use_extra-Leaves key x pkt n s =
      if_elim Kept (x.extra_type == 1 && not (is_empty x.extra))
        (if_elim Kept (is_empty (or_new (find key n.contacts)).pub_key) (recall s)
          (on_contact_response-Leaves _ x.extra pkt.time n s))
        (if_elim Kept (x.extra_type == 3 && leb 4 (length x.extra))
          (confirm-Leaves (get_u32 x.extra 0) pkt.time n s) (recall s))

  learn_path-Leaves :
      (lib : Library) (env : Ambient) (key : Str) (c : Contact) (x : PathReturn) (n : Node)
      → Holds P n
      → Kept (learn_path lib env key c x n)
  unfolding learn_path
  learn_path-Leaves lib env key c x n s = recall (persist_contacts-Holds lib env _ s)

  accept_path-Leaves :
      (lib : Library) (env : Ambient) (pkt : RxPacket) (key : Str) (c : Contact) (plain : Bytes)
      (n : Node)
      → Holds P n
      → Kept (accept_path lib env pkt key c plain n)
  unfolding accept_path
  accept_path-Leaves lib env pkt key c plain n s =
      option_elim Kept (parse_path plain) (recall s) (λ x. recall (
        Leaves.holds
          (use_extra-Leaves key x pkt _ (Leaves.holds (learn_path-Leaves lib env key c x n s)))))

  pub on_path-Leaves :
      (lib : Library) (env : Ambient) (pkt : RxPacket) (n : Node) (b : Bytes)
      → Holds P n
      → Kept (on_path lib env pkt n b)
  unfolding on_path
  on_path-Leaves lib env pkt n b s = if_elim Kept (not_for_us n b) (recall s) (
      option_elim Kept (try_response lib n b).1 (recall s)
        (λ e. accept_path-Leaves lib env pkt e.0 e.1 e.2 _ s))

  pub on_response-Leaves :
      (lib : Library) (pkt : RxPacket) (n : Node) (b : Bytes)
      → Holds P n
      → Kept (on_response lib pkt n b)
  unfolding on_response
  on_response-Leaves lib pkt n b s = if_elim Kept (not_for_us n b) (recall s) (
      option_elim Kept (try_response lib n b).1 (recall s)
        (λ e. on_contact_response-Leaves e.1 e.2 pkt.time _ s))

  pub on_ack-Leaves : (pkt : RxPacket) (n : Node) (b : Bytes) → Holds P n → Kept (on_ack pkt n b)
  unfolding on_ack
  on_ack-Leaves pkt n b s =
      if_elim Kept (ltb (length b) 4) (recall s) (confirm-Leaves (get_u32 b 0) pkt.time n s)
