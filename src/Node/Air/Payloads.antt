-- ===== src/Node/Air/Payloads.antt =====
-- The branches of onRxPacket in sdr-node/src/node.cpp for what is addressed to everybody, and for
-- text messages; and all branches together.
use meshcore_open_sdr.Shared.{
  Bool, List, Option, arith, false, none, some, true, ℕ, ◌%◌, ◌*◌, ◌-◌, ◌^◌,
}
use meshcore_open_sdr.Library.{Advert, Decoded, DecryptedText, Library, PayloadType}
use meshcore_open_sdr.Node.Air.{
  Holds, IsClosed, Leaves, Settled, on_ack-Leaves, on_path-Leaves, on_response-Leaves,
  persist_contacts-Holds, queue_for_app-Leaves, recall, settled,
}
use meshcore_open_sdr.Node.Answers.{
  accept_text, contact_message, heard_from, not_for_us, on_text_message, return_path, send_ack,
  try_contacts,
}
use meshcore_open_sdr.Node.Hearing.{
  accept_advert, hop_bytes, on_advert, on_control, on_group_data, on_group_text, on_trace,
  or_no_hops, travelled,
}
use meshcore_open_sdr.Node.Queues.{enqueue_tx, hex_of, mark_seen}
use meshcore_open_sdr.Node.Receive.{on_payload}
use meshcore_open_sdr.Node.State.{Ambient, Contact, Node, Outcome, RxPacket, quiet}
use meshcore_open_sdr.Shared.Lists.{drop, get_or, length}
use meshcore_open_sdr.Shared.Map.{Map, insert, nat_key, str_key}
use meshcore_open_sdr.Shared.Scan.{bytes}
use meshcore_open_sdr.Shared.Tests.{
  Returns, Returns-bind, if_elim, ltb, option_elim, returns, ◌==◌, ◌>>=◌,
}
use meshcore_open_sdr.Shared.Text.{Bytes, Str}

module _ (P : Map Str ℕ → List Str → Settled → Type 0) where
  abbrev Kept : Outcome → Type 0
  Kept = Leaves P

  on_group_text-Leaves :
      (lib : Library) (d : Decoded) (n : Node) (b : Bytes)
      → Holds P n
      → Kept (on_group_text lib d n b)
  unfolding on_group_text
  on_group_text-Leaves lib d n b s = grind (arith, queue_for_app-Leaves, recall)

  on_group_data-Leaves :
      (lib : Library) (pkt : RxPacket) (d : Decoded) (n : Node) (b : Bytes)
      → Holds P n
      → Kept (on_group_data lib pkt d n b)
  unfolding on_group_data
  on_group_data-Leaves lib pkt d n b s = grind (arith, queue_for_app-Leaves, recall)

  on_control-Leaves :
      (pkt : RxPacket) (d : Decoded) (n : Node) (b : Bytes)
      → Holds P n
      → Kept (on_control pkt d n b)
  unfolding on_control
  on_control-Leaves pkt d n b s = ground arith

  accept_advert-Leaves :
      (lib : Library) (env : Ambient) (pkt : RxPacket) (a : Advert) (key : Bytes) (path : ℕ × Bytes)
      (n : Node)
      → Holds P n
      → Kept (accept_advert lib env pkt a key path n)
  unfolding accept_advert
  accept_advert-Leaves lib env pkt a key path n s = recall P (persist_contacts-Holds P lib env _ s)

  on_advert-Leaves :
      (lib : Library) (env : Ambient) (pkt : RxPacket) (d : Decoded) (n : Node)
      → Holds P n
      → Returns Kept (on_advert lib env pkt d n)
  unfolding on_advert
  on_advert-Leaves lib env pkt d n s =
      option_elim (Returns Kept) (lib.decode_verified_advert pkt.hex) (returns (recall P s)) (λ a.
        if_elim (Returns Kept) _ (returns (recall P s)) (
          Returns-bind (lib.hex_to_bytes a.public_key) (λ key.
            Returns-bind (travelled lib d)
              (λ path. returns (accept_advert-Leaves lib env pkt a key path n s)))))

  on_trace-Leaves :
      (lib : Library) (pkt : RxPacket) (d : Decoded) (n : Node) (b : Bytes)
      → Holds P n
      → Returns Kept (on_trace lib pkt d n b)
  unfolding on_trace
  on_trace-Leaves lib pkt d n b s =
      if_elim (Returns Kept) (ltb (length b) 9) (returns (recall P s)) (
        if_elim (Returns Kept) (ltb (d.path_length * 2 ^ (get_or b 8 0 % 4)) (length b - 9))
          (returns (recall P s))
          (Returns-bind (hop_bytes lib (or_no_hops d.path)) (λ snrs. returns (recall P s))))

  send_ack-Holds :
      (lib : Library) (pkt : RxPacket) (o : Option Bytes) (n : Node)
      → IsClosed P pkt.time
      → Holds P n
      → Holds P (send_ack lib pkt o n)
  unfolding send_ack enqueue_tx mark_seen
  send_ack-Holds lib pkt none n h s = s
  send_ack-Holds lib pkt (some bytes) n h s =
      h n.seen n.tx_queue (settled n) (hex_of lib (drop 2 bytes)) (hex_of lib bytes) s

  accept_text-Leaves :
      (lib : Library) (env : Ambient) (pkt : RxPacket) (d : Decoded) (key : Str) (c : Contact)
      (m : DecryptedText) (path : ℕ × Bytes) (n : Node)
      → IsClosed P pkt.time
      → Holds P n
      → Kept (accept_text lib env pkt d key c m path n)
  unfolding accept_text
  accept_text-Leaves lib env pkt d key c m path n h s = recall P (
      persist_contacts-Holds P lib env _ (
        send_ack-Holds lib pkt _ _ h
          (Leaves.holds (queue_for_app-Leaves P (contact_message pkt d c m) n s))))

  on_text_message-Leaves :
      (lib : Library) (env : Ambient) (pkt : RxPacket) (d : Decoded) (n : Node) (b : Bytes)
      → IsClosed P pkt.time
      → Holds P n
      → Returns Kept (on_text_message lib env pkt d n b)
  unfolding on_text_message
  on_text_message-Leaves lib env pkt d n b h s =
      if_elim (Returns Kept) (not_for_us n b) (returns (recall P s)) (
        option_elim (Returns Kept) tried.1 (returns (recall P s))
          (λ e. answered e (e.2.txt_type == 0)))
    where
      tried : Map Str Contact × Option (Str × Contact × DecryptedText)
      tried = try_contacts lib n (get_or b 1 0) (λ k. lib.decrypt_text_message k b) n.contacts

      after : Str × Contact × DecryptedText → Node
      after (key, c, m) = record n { contacts = insert key (heard_from env c) tried.0 }

      answered :
          (e : Str × Contact × DecryptedText) (plain : Bool)
          → Returns Kept (elim plain [
            | false ↦ some (quiet (after e))
            | true ↦ return_path lib d >>= λ path.
                some (accept_text lib env pkt d e.0 e.1 e.2 path (after e))
          ])
      answered e false = returns (recall P s)
      answered e true =
          Returns-bind (return_path lib d)
            (λ path. returns (accept_text-Leaves lib env pkt d e.0 e.1 e.2 path _ h s))

  module _ (lib : Library) (env : Ambient) (pkt : RxPacket) (d : Decoded) (n : Node)
      (h : IsClosed P pkt.time) (s : Holds P n) where
    abbrev read :
        {f : Bytes → Option Outcome}
        → ((b : Bytes) → Returns Kept (f b))
        → Returns Kept (lib.hex_to_bytes d.payload_raw >>= f)
    read = Returns-bind (lib.hex_to_bytes d.payload_raw)

    pub on_payload-Leaves : (kind : PayloadType) → Returns Kept (on_payload lib env pkt d n kind)
    unfolding on_payload
    on_payload-Leaves PayloadType.group_text =
        read (λ b. returns (on_group_text-Leaves lib d n b s))
    on_payload-Leaves PayloadType.advert = on_advert-Leaves lib env pkt d n s
    on_payload-Leaves PayloadType.text_message =
        read (λ b. on_text_message-Leaves lib env pkt d n b h s)
    on_payload-Leaves PayloadType.control = read (λ b. returns (on_control-Leaves pkt d n b s))
    on_payload-Leaves PayloadType.group_data =
        read (λ b. returns (on_group_data-Leaves lib pkt d n b s))
    on_payload-Leaves PayloadType.trace = read (λ b. on_trace-Leaves lib pkt d n b s)
    on_payload-Leaves PayloadType.response =
        read (λ b. returns (on_response-Leaves P lib pkt n b s))
    on_payload-Leaves PayloadType.path_return =
        read (λ b. returns (on_path-Leaves P lib env pkt n b s))
    on_payload-Leaves PayloadType.ack = read (λ b. returns (on_ack-Leaves P pkt n b s))
    on_payload-Leaves _ = returns (recall P s)
