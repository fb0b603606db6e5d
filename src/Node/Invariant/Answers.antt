-- ===== src/Node/Invariant/Answers.antt =====
-- The branches of onRxPacket in sdr-node/src/node.cpp for what is addressed to the node keep its
-- invariant.
use meshcore_open_sdr.Shared.{
  Bool, List, Option, [], arith, false, none, not, some, true, ℕ, ◌&&◌, ◌∷◌,
}
use meshcore_open_sdr.Library.{Decoded, DecryptedText, Library}
use meshcore_open_sdr.Node.Answers.{
  PathReturn, accept_path, accept_text, confirm, confirmation, contact_message, heard_from,
  learn_path, not_for_us, on_ack, on_path, on_response, on_text_message, or_new, parse_path,
  return_path, send_ack, try_contacts, try_response, use_extra,
}
use meshcore_open_sdr.Node.Invariant.{
  IsSound, Keeps, keep, persist_contacts-IsSound, put_contact-IsSound, put_contacts-IsSound,
  queue_for_app-IsSound, sent-IsSound,
}
use meshcore_open_sdr.Node.Invariant.Packets.{on_contact_response-Keeps}
use meshcore_open_sdr.Node.Pending.{Taken, Takes, length-Taken, take_ack-Takes, taking}
use meshcore_open_sdr.Node.State.{Ambient, Contact, Node, PendingAck, RxPacket, push, quiet}
use meshcore_open_sdr.Shared.Lists.{get_or, length}
use meshcore_open_sdr.Shared.Map.{IsAbove, IsSorted, Map, find, insert, nat_key, str_key}
use meshcore_open_sdr.Shared.Tests.{
  Returns, Returns-bind, if_elim, leb, option_elim, returns, ◌==◌, ◌>>=◌,
}
use meshcore_open_sdr.Shared.Text.{Bytes, Str, is_empty}
use meshcore_open_sdr.Wire.{get_u32}

module _ {ℓ} {A : Type ℓ} (lib : Library) (n : Node) (source : ℕ) (decrypt : Str → Option A) where
  try_contacts-IsAbove :
      (k : Str) (m : Map Str Contact)
      → IsAbove k m
      → IsAbove k (try_contacts lib n source decrypt m).0
  unfolding try_contacts
  try_contacts-IsAbove k [] a = tt
  try_contacts-IsAbove k ((key, c) ∷ m) a = ground (arith, try_contacts-IsAbove k m a.1)

  -- Caching secrets changes no key.
  pub try_contacts-IsSorted :
      (m : Map Str Contact) → IsSorted m → IsSorted (try_contacts lib n source decrypt m).0
  unfolding try_contacts
  try_contacts-IsSorted [] s = tt
  try_contacts-IsSorted ((key, c) ∷ m) s =
      ground (arith, try_contacts-IsSorted m s.1, try_contacts-IsAbove key m s.0)

put_acks-IsSound :
    (value : ℕ) (a : PendingAck) (rest : List PendingAck) (n : Node)
    → Taken (λ b. b.ack == value) n.pending_acks a rest
    → IsSound n
    → IsSound (record n { pending_acks = rest })
put_acks-IsSound value a rest n t s = record {
  inbox_bound = s.inbox_bound;
  acks_bound = omega (arith, s.acks_bound, length-Taken _ n.pending_acks a rest t);
  reqs_bound = s.reqs_bound;
  traces_bound = s.traces_bound;
  contacts_sorted = s.contacts_sorted;
  seen_sorted = s.seen_sorted;
  traces_sorted = s.traces_sorted;
}

confirm-Keeps : (value now : ℕ) (n : Node) → IsSound n → Keeps (confirm value now n)
unfolding confirm
confirm-Keeps value now n s = matched _ (take_ack-Takes value n.pending_acks)
  where
    matched :
        (o : Option (PendingAck × List PendingAck))
        → Takes (λ b. b.ack == value) n.pending_acks o
        → Keeps (elim o [
          | none ↦ quiet n
          | some (a, rest) ↦
              push (record n { pending_acks = rest }) (confirmation value a.sent_at now)
        ])
    matched none h = keep s
    matched (some (a, rest)) (taking t) = keep (put_acks-IsSound value a rest n t s)

pub on_ack-Keeps : (pkt : RxPacket) (n : Node) (p : Bytes) → IsSound n → Keeps (on_ack pkt n p)
unfolding on_ack
on_ack-Keeps pkt n p s = if_elim Keeps _ (keep s) (confirm-Keeps (get_u32 p 0) pkt.time n s)

use_extra-Keeps :
    (key : Str) (p : PathReturn) (pkt : RxPacket) (n : Node)
    → IsSound n
    → Keeps (use_extra key p pkt n)
unfolding use_extra
use_extra-Keeps key p pkt n s =
    if_elim Keeps (p.extra_type == 1 && not (is_empty p.extra))
      (if_elim Keeps (is_empty (or_new (find key n.contacts)).pub_key) (keep s)
        (on_contact_response-Keeps _ p.extra pkt.time n s))
      (if_elim Keeps (p.extra_type == 3 && leb 4 (length p.extra))
        (confirm-Keeps (get_u32 p.extra 0) pkt.time n s) (keep s))

learn_path-Keeps :
    (lib : Library) (env : Ambient) (key : Str) (c : Contact) (p : PathReturn) (n : Node)
    → IsSound n
    → Keeps (learn_path lib env key c p n)
unfolding learn_path
learn_path-Keeps lib env key c p n s =
    keep (persist_contacts-IsSound lib env _ (put_contact-IsSound key _ n s))

accept_path-Keeps :
    (lib : Library) (env : Ambient) (pkt : RxPacket) (key : Str) (c : Contact) (plain : Bytes)
    (n : Node)
    → IsSound n
    → Keeps (accept_path lib env pkt key c plain n)
unfolding accept_path
accept_path-Keeps lib env pkt key c plain n s = option_elim Keeps (parse_path plain) (keep s) (λ p.
    keep (
      Keeps.sound
        (use_extra-Keeps key p pkt _ (Keeps.sound (learn_path-Keeps lib env key c p n s)))))

tried-IsSound :
    (lib : Library) (n : Node) (p : Bytes)
    → IsSound n
    → IsSound (record n { contacts = (try_response lib n p).0 })
tried-IsSound lib n p s =
    put_contacts-IsSound _ n (try_contacts-IsSorted lib n _ _ n.contacts s.contacts_sorted) s

pub on_response-Keeps :
    (lib : Library) (pkt : RxPacket) (n : Node) (p : Bytes)
    → IsSound n
    → Keeps (on_response lib pkt n p)
unfolding on_response
on_response-Keeps lib pkt n p s = if_elim Keeps (not_for_us n p) (keep s) (
    option_elim Keeps (try_response lib n p).1 (keep (tried-IsSound lib n p s))
      (λ e. on_contact_response-Keeps e.1 e.2 pkt.time _ (tried-IsSound lib n p s)))

pub on_path-Keeps :
    (lib : Library) (env : Ambient) (pkt : RxPacket) (n : Node) (p : Bytes)
    → IsSound n
    → Keeps (on_path lib env pkt n p)
unfolding on_path
on_path-Keeps lib env pkt n p s = if_elim Keeps (not_for_us n p) (keep s) (
    option_elim Keeps (try_response lib n p).1 (keep (tried-IsSound lib n p s))
      (λ e. accept_path-Keeps lib env pkt e.0 e.1 e.2 _ (tried-IsSound lib n p s)))

send_ack-IsSound :
    (lib : Library) (pkt : RxPacket) (o : Option Bytes) (n : Node)
    → IsSound n
    → IsSound (send_ack lib pkt o n)
unfolding send_ack
send_ack-IsSound lib pkt none n s = s
send_ack-IsSound lib pkt (some bytes) n s = sent-IsSound _ _ pkt.time n s

accept_text-Keeps :
    (lib : Library) (env : Ambient) (pkt : RxPacket) (d : Decoded) (key : Str) (c : Contact)
    (m : DecryptedText) (path : ℕ × Bytes) (n : Node)
    → IsSound n
    → Keeps (accept_text lib env pkt d key c m path n)
unfolding accept_text
accept_text-Keeps lib env pkt d key c m path n s = keep (
    persist_contacts-IsSound lib env _ (
      send_ack-IsSound lib pkt _ _
        (Keeps.sound (queue_for_app-IsSound (contact_message pkt d c m) n s))))

pub on_text_message-Keeps :
    (lib : Library) (env : Ambient) (pkt : RxPacket) (d : Decoded) (n : Node) (p : Bytes)
    → IsSound n
    → Returns Keeps (on_text_message lib env pkt d n p)
unfolding on_text_message
on_text_message-Keeps lib env pkt d n p s =
    if_elim (Returns Keeps) (not_for_us n p) (returns (keep s)) (
      option_elim (Returns Keeps) tried.1 (returns (keep tried_sound))
        (λ e. answered e (e.2.txt_type == 0)))
  where
    tried : Map Str Contact × Option (Str × Contact × DecryptedText)
    tried = try_contacts lib n (get_or p 1 0) (λ k. lib.decrypt_text_message k p) n.contacts

    tried_sound : IsSound (record n { contacts = tried.0 })
    tried_sound =
        put_contacts-IsSound tried.0 n
          (try_contacts-IsSorted lib n (get_or p 1 0) (λ k. lib.decrypt_text_message k p) n.contacts
            s.contacts_sorted)
          s

    after : Str × Contact × DecryptedText → Node
    after (key, c, m) = record n { contacts = insert key (heard_from env c) tried.0 }

    after_sound : (e : Str × Contact × DecryptedText) → IsSound (after e)
    after_sound (key, c, m) =
        put_contact-IsSound key (heard_from env c) (record n { contacts = tried.0 }) tried_sound

    answered :
        (e : Str × Contact × DecryptedText) (plain : Bool)
        → Returns Keeps (elim plain [
          | false ↦ some (quiet (after e))
          | true ↦ return_path lib d >>= λ path.
              some (accept_text lib env pkt d e.0 e.1 e.2 path (after e))
        ])
    answered e false = returns (keep (after_sound e))
    answered e true =
        Returns-bind (return_path lib d)
          (λ path. returns (accept_text-Keeps lib env pkt d e.0 e.1 e.2 path _ (after_sound e)))
