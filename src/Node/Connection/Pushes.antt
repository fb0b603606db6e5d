-- ===== src/Node/Connection/Pushes.antt =====
-- onRxPacket of sdr-node/src/node.cpp pushes nothing where the app is not connected.
use meshcore_open_sdr.Shared.{
  Bool, List, Option, [], arith, false, none, not, refl, some, true, ℕ, ◌%◌, ◌&&◌, ◌*◌, ◌-◌, ◌^◌,
  ◌||◌, ◌≡◌,
}
use meshcore_open_sdr.Library.{Decoded, DecryptedText, Library}
use meshcore_open_sdr.Node.Answers.{
  PathReturn, accept_path, accept_text, confirm, contact_message, heard_from, learn_path,
  not_for_us, on_ack, on_path, on_response, on_text_message, or_new, parse_path, return_path,
  send_ack, take_ack, try_contacts, try_response, use_extra,
}
use meshcore_open_sdr.Node.Files.{persist_contacts}
use meshcore_open_sdr.Node.Hearing.{
  accept_advert, hop_bytes, on_advert, on_control, on_group_data, on_group_text, on_trace,
  or_no_hops, travelled,
}
use meshcore_open_sdr.Node.Queues.{enqueue_tx, mark_seen, queue_for_app}
use meshcore_open_sdr.Node.Responses.{on_contact_response, take_pending}
use meshcore_open_sdr.Node.State.{
  Ambient, Contact, Node, Outcome, RxPacket, push, pushed_first, quiet,
}
use meshcore_open_sdr.Shared.Lists.{get_or, length}
use meshcore_open_sdr.Shared.Map.{find, insert, nat_key, str_key}
use meshcore_open_sdr.Shared.Scan.{bytes}
use meshcore_open_sdr.Shared.Tests.{
  Returns, Returns-bind, if_elim, leb, ltb, option_elim, returns, ◌==◌, ◌>>=◌,
}
use meshcore_open_sdr.Shared.Text.{Bytes, Str, is_empty}
use meshcore_open_sdr.Wire.{get_u32}

-- An outcome that leaves the node without a connection and pushed nothing.
pub record Silent (o : Outcome) : Type 0 where
  pub closed : o.node.app ≡ false
  pub no_pushes : o.pushes ≡ []

pub untold :
    {n : Node} {replies : List Bytes}
    → n.app ≡ false
    → Silent (record { node = n; replies = replies; pushes = [] })
untold h = record { closed = h; no_pushes = refl }

-- `if (sender) sender(frame)` without a sender.
pub push-Silent : (n : Node) (frame : Bytes) → n.app ≡ false → Silent (push n frame)
push-Silent n frame h = record { closed = h; no_pushes = rw h }

queue_for_app-Silent : (f : Bytes) (n : Node) → n.app ≡ false → Silent (queue_for_app f n)
unfolding queue_for_app
queue_for_app-Silent f n h = push-Silent _ _ h

persist-app :
    (lib : Library) (env : Ambient) (n : Node)
    → n.app ≡ false
    → (persist_contacts lib env n).app ≡ false
unfolding persist_contacts
persist-app lib env n h = ground arith

pub pushed_first-Silent :
    (fs : List Bytes) (o : Outcome) → fs ≡ [] → Silent o → Silent (pushed_first fs o)
pushed_first-Silent fs o e k = record { closed = k.closed; no_pushes = rw (e, k.no_pushes) }

module _ (lib : Library) (env : Ambient) (pkt : RxPacket) (d : Decoded) where
  pub on_group_text-Silent :
      (n : Node) (b : Bytes) → n.app ≡ false → Silent (on_group_text lib d n b)
  unfolding on_group_text
  on_group_text-Silent n b h = grind (arith, queue_for_app-Silent, untold)

  pub on_group_data-Silent :
      (n : Node) (b : Bytes) → n.app ≡ false → Silent (on_group_data lib pkt d n b)
  unfolding on_group_data
  on_group_data-Silent n b h = grind (arith, queue_for_app-Silent, untold)

  pub on_control-Silent : (n : Node) (b : Bytes) → n.app ≡ false → Silent (on_control pkt d n b)
  unfolding on_control
  on_control-Silent n b h =
      if_elim Silent (is_empty b || ltb (get_or b 0 0) 128) (untold h)
        (if_elim Silent (not (d.path_length == 0)) (untold h) (push-Silent n _ h))

  pub on_advert-Silent : (n : Node) → n.app ≡ false → Returns Silent (on_advert lib env pkt d n)
  unfolding on_advert accept_advert
  on_advert-Silent n h =
      option_elim (Returns Silent) (lib.decode_verified_advert pkt.hex) (returns (untold h)) (λ a.
        if_elim (Returns Silent) _ (returns (untold h)) (
          Returns-bind (lib.hex_to_bytes a.public_key) (λ key.
            Returns-bind (travelled lib d)
              (λ path. returns (push-Silent _ _ (persist-app lib env _ h))))))

  pub on_trace-Silent :
      (n : Node) (b : Bytes) → n.app ≡ false → Returns Silent (on_trace lib pkt d n b)
  unfolding on_trace
  on_trace-Silent n b h = if_elim (Returns Silent) (ltb (length b) 9) (returns (untold h)) (
      if_elim (Returns Silent) (ltb (d.path_length * 2 ^ (get_or b 8 0 % 4)) (length b - 9))
        (returns (untold h))
        (Returns-bind (hop_bytes lib (or_no_hops d.path)) (λ snrs. returns (push-Silent _ _ h))))

  -- No answer of a contact is delivered without a connection.
  on_contact_response-Silent :
      (c : Contact) (body : Bytes) (n : Node)
      → n.app ≡ false
      → Silent (on_contact_response c body pkt.time n)
  unfolding on_contact_response
  on_contact_response-Silent c body n h = if_elim Silent (ltb (length body) 4) (untold h) (
      option_elim Silent (take_pending c.pub_key (get_u32 body 0) pkt.time n.pending_reqs)
        (untold h) (λ e. rw h (untold refl)))

  confirm-Silent : (value : ℕ) (n : Node) → n.app ≡ false → Silent (confirm value pkt.time n)
  unfolding confirm
  confirm-Silent value n h =
      option_elim Silent (take_ack value n.pending_acks) (untold h) (λ e. push-Silent _ _ h)

  pub on_ack-Silent : (n : Node) (b : Bytes) → n.app ≡ false → Silent (on_ack pkt n b)
  unfolding on_ack
  on_ack-Silent n b h =
      if_elim Silent (ltb (length b) 4) (untold h) (confirm-Silent (get_u32 b 0) n h)

  use_extra-Silent :
      (key : Str) (x : PathReturn) (n : Node) → n.app ≡ false → Silent (use_extra key x pkt n)
  unfolding use_extra
  use_extra-Silent key x n h =
      if_elim Silent (x.extra_type == 1 && not (is_empty x.extra))
        (if_elim Silent (is_empty (or_new (find key n.contacts)).pub_key) (untold h)
          (on_contact_response-Silent _ x.extra n h))
        (if_elim Silent (x.extra_type == 3 && leb 4 (length x.extra))
          (confirm-Silent (get_u32 x.extra 0) n h) (untold h))

  learn_path-Silent :
      (key : Str) (c : Contact) (x : PathReturn) (n : Node)
      → n.app ≡ false
      → Silent (learn_path lib env key c x n)
  unfolding learn_path
  learn_path-Silent key c x n h = push-Silent _ _ (persist-app lib env _ h)

  accept_path-Silent :
      (key : Str) (c : Contact) (plain : Bytes) (n : Node)
      → n.app ≡ false
      → Silent (accept_path lib env pkt key c plain n)
  unfolding accept_path
  accept_path-Silent key c plain n h = option_elim Silent (parse_path plain) (untold h) (λ x.
      let learned = learn_path-Silent key c x n h in
      pushed_first-Silent _ _ learned.no_pushes (use_extra-Silent key x _ learned.closed))

  pub on_response-Silent : (n : Node) (b : Bytes) → n.app ≡ false → Silent (on_response lib pkt n b)
  unfolding on_response
  on_response-Silent n b h = if_elim Silent (not_for_us n b) (untold h) (
      option_elim Silent (try_response lib n b).1 (untold h)
        (λ e. on_contact_response-Silent e.1 e.2 _ h))

  pub on_path-Silent : (n : Node) (b : Bytes) → n.app ≡ false → Silent (on_path lib env pkt n b)
  unfolding on_path
  on_path-Silent n b h = if_elim Silent (not_for_us n b) (untold h) (
      option_elim Silent (try_response lib n b).1 (untold h)
        (λ e. accept_path-Silent e.0 e.1 e.2 _ h))

  send_ack-app : (o : Option Bytes) (n : Node) → n.app ≡ false → (send_ack lib pkt o n).app ≡ false
  unfolding send_ack enqueue_tx mark_seen
  send_ack-app none n h = h
  send_ack-app (some bytes) n h = h

  accept_text-Silent :
      (key : Str) (c : Contact) (m : DecryptedText) (path : ℕ × Bytes) (n : Node)
      → n.app ≡ false
      → Silent (accept_text lib env pkt d key c m path n)
  unfolding accept_text
  accept_text-Silent key c m path n h =
      let queued = queue_for_app-Silent (contact_message pkt d c m) n h in
      record {
        closed = persist-app lib env _ (send_ack-app _ _ queued.closed);
        no_pushes = queued.no_pushes;
      }

  pub on_text_message-Silent :
      (n : Node) (b : Bytes) → n.app ≡ false → Returns Silent (on_text_message lib env pkt d n b)
  unfolding on_text_message
  on_text_message-Silent n b h =
      let tried =
        try_contacts lib n (get_or b 1 0) (λ k. lib.decrypt_text_message k b) n.contacts in
      if_elim (Returns Silent) (not_for_us n b) (returns (untold h)) (
        option_elim (Returns Silent) tried.1 (returns (untold h))
          (λ e. answered e (e.2.txt_type == 0)))
    where
      after : Str × Contact × DecryptedText → Node
      after (key, c, m) = record n {
        contacts =
            insert key (heard_from env c)
              (try_contacts lib n (get_or b 1 0) (λ k. lib.decrypt_text_message k b) n.contacts).0;
      }

      answered :
          (e : Str × Contact × DecryptedText) (plain : Bool)
          → Returns Silent (elim plain [
            | false ↦ some (quiet (after e))
            | true ↦ return_path lib d >>= λ path.
                some (accept_text lib env pkt d e.0 e.1 e.2 path (after e))
          ])
      answered e false = returns (untold h)
      answered e true =
          Returns-bind (return_path lib d)
            (λ path. returns (accept_text-Silent e.0 e.1 e.2 path (after e) h))
