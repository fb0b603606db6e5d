-- ===== src/Node/Invariant.antt =====
-- The invariant of a Node of sdr-node/src/node.h: the queues keep their limits, and the maps
-- their order. Here: the operations of node.cpp that the handlers share.
pub mod Commands
pub mod Sending
pub mod Dispatch
pub mod Packets
pub mod Answers
pub mod Receive
use meshcore_open_sdr.Shared.{List, [], arith, inl, inr, ℕ, ◌++◌, ◌∷◌, ◌≤◌}
use meshcore_open_sdr.Library.{Library}
use meshcore_open_sdr.Node.Dedup.{sweep-IsSorted}
use meshcore_open_sdr.Node.Files.{persist_contacts, save_prefs}
use meshcore_open_sdr.Node.Queues.{
  add_pending_ack, add_pending_req, cache_secret, enqueue_tx, is_recent, mark_seen, queue_for_app,
  seen_before,
}
use meshcore_open_sdr.Node.State.{Ambient, Contact, Node, Outcome, PendingAck, PendingReq}
use meshcore_open_sdr.Shared.Lists.{length, length-keep_last}
use meshcore_open_sdr.Shared.Map.{IsSorted, Map, find, insert, insert-IsSorted, nat_key, str_key}
use meshcore_open_sdr.Shared.Tests.{Bool-cases}
use meshcore_open_sdr.Shared.Text.{Bytes, Str}

-- At most 256 messages wait for the app, 32 acknowledgements, 16 responses and 32 traces are
-- waited for, and no key stands twice in a map.
pub record IsSound (n : Node) : Type 0 where
  pub inbox_bound : length n.inbox ≤ 256
  pub acks_bound : length n.pending_acks ≤ 32
  pub reqs_bound : length n.pending_reqs ≤ 16
  pub traces_bound : length n.sent_traces ≤ 32
  pub contacts_sorted : IsSorted n.contacts
  pub seen_sorted : IsSorted n.seen
  pub traces_sorted : IsSorted n.sent_traces

-- A handler's outcome leaves a sound node.
pub record Keeps (o : Outcome) : Type 0 where
  pub sound : IsSound o.node

pub keep :
    {n : Node} {replies pushes : List Bytes}
    → IsSound n
    → Keeps (record { node = n; replies = replies; pushes = pushes })
keep s = record { sound = s }

pub enqueue_tx-IsSound : (hex : Str) (n : Node) → IsSound n → IsSound (enqueue_tx hex n)
unfolding enqueue_tx
enqueue_tx-IsSound hex n s = ground arith

pub put_seen-IsSound :
    (m : Map Str ℕ) (n : Node) → IsSorted m → IsSound n → IsSound (record n { seen = m })
put_seen-IsSound m n h s = record {
  inbox_bound = s.inbox_bound;
  acks_bound = s.acks_bound;
  reqs_bound = s.reqs_bound;
  traces_bound = s.traces_bound;
  contacts_sorted = s.contacts_sorted;
  seen_sorted = h;
  traces_sorted = s.traces_sorted;
}

pub mark_seen-IsSound : (p : Str) (at : ℕ) (n : Node) → IsSound n → IsSound (mark_seen p at n)
unfolding mark_seen
mark_seen-IsSound p at n s = put_seen-IsSound _ n (insert-IsSorted p at n.seen s.seen_sorted) s

pub add_pending_ack-IsSound :
    (a : PendingAck) (n : Node) → IsSound n → IsSound (add_pending_ack a n)
unfolding add_pending_ack
add_pending_ack-IsSound a n s = ground (arith, length-keep_last 32 (n.pending_acks ++ (a ∷ [])))

pub add_pending_req-IsSound :
    (r : PendingReq) (n : Node) → IsSound n → IsSound (add_pending_req r n)
unfolding add_pending_req
add_pending_req-IsSound r n s = ground (arith, length-keep_last 16 (n.pending_reqs ++ (r ∷ [])))

pub queue_for_app-IsSound : (f : Bytes) (n : Node) → IsSound n → Keeps (queue_for_app f n)
unfolding queue_for_app
queue_for_app-IsSound f n s = ground (arith, length-keep_last 256 (n.inbox ++ (f ∷ [])))

pub persist_contacts-IsSound :
    (lib : Library) (env : Ambient) (n : Node) → IsSound n → IsSound (persist_contacts lib env n)
unfolding persist_contacts
persist_contacts-IsSound lib env n s = ground arith

pub save_prefs-IsSound :
    (lib : Library) (env : Ambient) (n : Node) → IsSound n → IsSound (save_prefs lib env n)
unfolding save_prefs
save_prefs-IsSound lib env n s = ground arith

pub put_contacts-IsSound :
    (m : Map Str Contact) (n : Node) → IsSorted m → IsSound n → IsSound (record n { contacts = m })
put_contacts-IsSound m n h s = record {
  inbox_bound = s.inbox_bound;
  acks_bound = s.acks_bound;
  reqs_bound = s.reqs_bound;
  traces_bound = s.traces_bound;
  contacts_sorted = h;
  seen_sorted = s.seen_sorted;
  traces_sorted = s.traces_sorted;
}

pub put_contact-IsSound :
    (key : Str) (c : Contact) (n : Node)
    → IsSound n
    → IsSound (record n { contacts = insert key c n.contacts })
put_contact-IsSound key c n s =
    put_contacts-IsSound _ n (insert-IsSorted key c n.contacts s.contacts_sorted) s

pub cache_secret-IsSound :
    (lib : Library) (key : Str) (c : Contact) (n : Node)
    → IsSound n
    → IsSound (cache_secret lib key c n)
unfolding cache_secret
cache_secret-IsSound lib key c n s = put_contact-IsSound key _ n s

pub seen_before-IsSound :
    (p : Str) (now : ℕ) (n : Node) → IsSound n → IsSound (seen_before p now n).1
unfolding seen_before
seen_before-IsSound p now n s = elim (Bool-cases (is_recent now (find p n.seen))) [
  | inl e ↦ rw e s
  | inr e ↦
      rw e
        (put_seen-IsSound _ n (sweep-IsSorted now _ (insert-IsSorted p now n.seen s.seen_sorted)) s)
]

-- What only the settings, the scope or the files tell apart is sound alike.
pub put_scope-IsSound :
    (name : Str) (key : Bytes) (n : Node)
    → IsSound n
    → IsSound (record n { scope_name = name; scope_key = key })
put_scope-IsSound name key n s = ground arith

-- A packet that is queued with its payload marked as seen.
pub sent-IsSound :
    (hex p : Str) (at : ℕ) (n : Node) → IsSound n → IsSound (enqueue_tx hex (mark_seen p at n))
sent-IsSound hex p at n s = enqueue_tx-IsSound hex _ (mark_seen-IsSound p at n s)
