-- ===== src/Node/Invariant/Packets.antt =====
-- onRxPacket of sdr-node/src/node.cpp keeps the invariant of the node, whatever is received.
use meshcore_open_sdr.Shared.{List, Option, arith, none, some, ℕ, ◌%◌, ◌*◌, ◌-◌, ◌^◌}
use meshcore_open_sdr.Library.{Advert, Decoded, Library}
use meshcore_open_sdr.Node.Hearing.{
  accept_advert, hop_bytes, on_advert, on_control, on_group_data, on_group_text, on_trace,
  or_no_hops, travelled,
}
use meshcore_open_sdr.Node.Invariant.{
  IsSound, Keeps, keep, persist_contacts-IsSound, put_contact-IsSound, queue_for_app-IsSound,
}
use meshcore_open_sdr.Node.Pending.{Taken, Takes, length-Taken, take_pending-Takes, taking}
use meshcore_open_sdr.Node.Responses.{answers, cli_message, deliver, on_contact_response}
use meshcore_open_sdr.Node.State.{Ambient, Contact, Kind, Node, PendingReq, RxPacket, quiet}
use meshcore_open_sdr.Shared.Lists.{get_or, length}
use meshcore_open_sdr.Shared.Map.{erase, erase-IsSorted, length-erase, nat_key, str_key}
use meshcore_open_sdr.Shared.Tests.{
  Returns, Returns-bind, if_elim, if◌then◌else◌, ltb, option_elim, returns,
}
use meshcore_open_sdr.Shared.Text.{Bytes, to_lower}
use meshcore_open_sdr.Wire.{get_u32}

pub on_group_text-Keeps :
    (lib : Library) (d : Decoded) (n : Node) (p : Bytes)
    → IsSound n
    → Keeps (on_group_text lib d n p)
unfolding on_group_text
on_group_text-Keeps lib d n p s = grind (arith, queue_for_app-IsSound)

pub on_group_data-Keeps :
    (lib : Library) (pkt : RxPacket) (d : Decoded) (n : Node) (p : Bytes)
    → IsSound n
    → Keeps (on_group_data lib pkt d n p)
unfolding on_group_data
on_group_data-Keeps lib pkt d n p s = grind (arith, queue_for_app-IsSound)

pub on_control-Keeps :
    (pkt : RxPacket) (d : Decoded) (n : Node) (p : Bytes) → IsSound n → Keeps (on_control pkt d n p)
unfolding on_control
on_control-Keeps pkt d n p s = ground arith

accept_advert-Keeps :
    (lib : Library) (env : Ambient) (pkt : RxPacket) (a : Advert) (key : Bytes) (path : ℕ × Bytes)
    (n : Node)
    → IsSound n
    → Keeps (accept_advert lib env pkt a key path n)
unfolding accept_advert
accept_advert-Keeps lib env pkt a key path n s =
    keep (persist_contacts-IsSound lib env _ (put_contact-IsSound (to_lower a.public_key) _ n s))

pub on_advert-Keeps :
    (lib : Library) (env : Ambient) (pkt : RxPacket) (d : Decoded) (n : Node)
    → IsSound n
    → Returns Keeps (on_advert lib env pkt d n)
unfolding on_advert
on_advert-Keeps lib env pkt d n s =
    option_elim (Returns Keeps) (lib.decode_verified_advert pkt.hex) (returns (keep s)) (λ a.
      if_elim (Returns Keeps) _ (returns (keep s)) (
        Returns-bind (lib.hex_to_bytes a.public_key) (λ key.
          Returns-bind (travelled lib d)
            (λ path. returns (accept_advert-Keeps lib env pkt a key path n s)))))

put_traces-IsSound :
    (tag : ℕ) (n : Node) → IsSound n → IsSound (record n { sent_traces = erase tag n.sent_traces })
put_traces-IsSound tag n s = record {
  inbox_bound = s.inbox_bound;
  acks_bound = s.acks_bound;
  reqs_bound = s.reqs_bound;
  traces_bound = omega (arith, s.traces_bound, length-erase tag n.sent_traces);
  contacts_sorted = s.contacts_sorted;
  seen_sorted = s.seen_sorted;
  traces_sorted = erase-IsSorted tag n.sent_traces s.traces_sorted;
}

pub on_trace-Keeps :
    (lib : Library) (pkt : RxPacket) (d : Decoded) (n : Node) (p : Bytes)
    → IsSound n
    → Returns Keeps (on_trace lib pkt d n p)
unfolding on_trace
on_trace-Keeps lib pkt d n p s = if_elim (Returns Keeps) (ltb (length p) 9) (returns (keep s)) (
    if_elim (Returns Keeps) (ltb (d.path_length * 2 ^ (get_or p 8 0 % 4)) (length p - 9))
      (returns (keep s))
      (Returns-bind (hop_bytes lib (or_no_hops d.path))
        (λ snrs. returns (keep (put_traces-IsSound (get_u32 p 0) n s)))))

deliver-Keeps :
    (c : Contact) (body : Bytes) (tag now : ℕ) (kind : Kind) (n : Node)
    → IsSound n
    → Keeps (deliver c body tag now kind n)
unfolding deliver
deliver-Keeps c body tag now Kind.login n s = keep s
deliver-Keeps c body tag now Kind.telemetry n s = keep s
deliver-Keeps c body tag now Kind.path_discovery n s = keep s
deliver-Keeps c body tag now Kind.binary n s = keep s
deliver-Keeps c body tag now Kind.anon n s = keep s
deliver-Keeps c body tag now Kind.cli n s = queue_for_app-IsSound (cli_message c body now) n s
deliver-Keeps c body tag now Kind.status n s = keep s

pub on_contact_response-Keeps :
    (c : Contact) (body : Bytes) (now : ℕ) (n : Node)
    → IsSound n
    → Keeps (on_contact_response c body now n)
unfolding on_contact_response
on_contact_response-Keeps c body now n s =
    if_elim Keeps (ltb (length body) 4) (keep s)
      (matched _ (take_pending-Takes c.pub_key (get_u32 body 0) now n.pending_reqs))
  where
    rest_sound :
        (r : PendingReq) (rest : List PendingReq)
        → Taken (answers c.pub_key (get_u32 body 0) now) n.pending_reqs r rest
        → IsSound (record n { pending_reqs = rest })
    rest_sound r rest t = record {
      inbox_bound = s.inbox_bound;
      acks_bound = s.acks_bound;
      reqs_bound = omega (arith, s.reqs_bound, length-Taken _ n.pending_reqs r rest t);
      traces_bound = s.traces_bound;
      contacts_sorted = s.contacts_sorted;
      seen_sorted = s.seen_sorted;
      traces_sorted = s.traces_sorted;
    }

    matched :
        (o : Option (PendingReq × List PendingReq))
        → Takes (answers c.pub_key (get_u32 body 0) now) n.pending_reqs o
        → Keeps (elim o [
          | none ↦ quiet n
          | some (req, rest) ↦
              let n' : Node = record n { pending_reqs = rest } in
              if n.app then deliver c body (get_u32 body 0) now req.kind n' else quiet n'
        ])
    matched none h = keep s
    matched (some (r, rest)) (taking t) =
        if_elim Keeps n.app
          (deliver-Keeps c body (get_u32 body 0) now r.kind _ (rest_sound r rest t))
          (keep (rest_sound r rest t))
