-- ===== src/Node/Echoes.antt =====
-- What the commands of sdr-node/src/node.cpp queue for the transmitter, and that the payload is
-- noted in `seen_`, since the node's own receiver will hear the transmission.
pub mod Commands
pub mod Dispatch
use meshcore_open_sdr.Shared.{
  Bool, List, Option, [], ap, false, none, refl, some, true, ℕ, ◌++◌, ◌||◌, ◌∷◌, ◌≡◌,
}
use meshcore_open_sdr.Library.{Library, PayloadType, RouteType}
use meshcore_open_sdr.Node.Contacts.{no_channel}
use meshcore_open_sdr.Node.Queues.{
  add_pending_ack, cache_secret, enqueue_tx, hex_of, mark_seen, with_secret,
}
use meshcore_open_sdr.Node.Sending.{
  direct_packet, flood_hash_size, flood_packet, is_flooded, position, routed_packet,
  send_channel_text, send_self_advert, send_text_to, send_to_contact,
}
use meshcore_open_sdr.Node.State.{Ambient, Contact, Node, Outcome, clock_u32, clock_us}
use meshcore_open_sdr.Shared.Lists.{drop, get_or, length}
use meshcore_open_sdr.Shared.Map.{find, find-insert_self, nat_key, str_key}
use meshcore_open_sdr.Shared.Tests.{if_elim, if◌then◌else◌, leb, ltb, option_elim_eq, ◌==◌}
use meshcore_open_sdr.Shared.Text.{Bytes, Str, is_empty, until_nul}
use meshcore_open_sdr.Wire.{IsU32, get_u32}
use mathlib.Core.Option.{some-injective}
use mathlib.Core.Path.{subst}
use native.Mathlib.Nat.{mod-eq_of_lt}

-- The encoder made the packet of the payload.
pub data Builds (lib : Library) (payload bytes : Bytes) : Type 0 where
  builds :
      (route : RouteType) (kind : PayloadType) (path : Option (Bytes × ℕ))
      → lib.build_packet route kind payload path ≡ some bytes
      → Builds lib payload bytes

-- A command queues nothing, or one packet behind the others whose payload it notes.
pub data Queues (lib : Library) (at : ℕ) (n n' : Node) : Type 0 where
  nothing_new : n'.tx_queue ≡ n.tx_queue → Queues lib at n n'
  one_more :
      (payload bytes : Bytes)
      → Builds lib payload bytes
      → n'.tx_queue ≡ n.tx_queue ++ (hex_of lib bytes ∷ [])
      → find (hex_of lib payload) n'.seen ≡ some at
      → Queues lib at n n'

-- A handler's outcome queues so.
pub record Marks (lib : Library) (at : ℕ) (n : Node) (o : Outcome) : Type 0 where
  pub queued : Queues lib at n o.node

pub either :
    (lib : Library) (b : Bool) (payload bytes : Bytes) {x y : Option Bytes}
    → (x ≡ some bytes → Builds lib payload bytes)
    → (y ≡ some bytes → Builds lib payload bytes)
    → (if b then x else y) ≡ some bytes
    → Builds lib payload bytes
either lib true payload bytes h k e = h e
either lib false payload bytes h k e = k e

module _ (lib : Library) (env : Ambient) (n : Node) where
  abbrev pub NowQueues : Node → Type 0
  NowQueues = Queues lib (clock_us env) n

  abbrev pub NowMarks : Outcome → Type 0
  NowMarks = Marks lib (clock_us env) n

  pub quietly :
      {n' : Node} {replies pushes : List Bytes}
      → n'.tx_queue ≡ n.tx_queue
      → NowMarks (record { node = n'; replies = replies; pushes = pushes })
  quietly e = record { queued = nothing_new e }

  pub marked :
      (payload bytes : Bytes) (m : Node)
      → Builds lib payload bytes
      → m.tx_queue ≡ n.tx_queue
      → NowQueues (enqueue_tx (hex_of lib bytes) (mark_seen (hex_of lib payload) (clock_us env) m))
  unfolding enqueue_tx mark_seen
  marked payload bytes m b q =
      one_more payload bytes b (ap (λ xs. xs ++ (hex_of lib bytes ∷ [])) q)
        (find-insert_self (hex_of lib payload) (clock_us env) m.seen)

  pub send_self_advert-Queues : (flooding : Bool) → NowQueues (send_self_advert lib env flooding n)
  unfolding send_self_advert
  send_self_advert-Queues flooding =
      let route = if flooding then RouteType.flood else RouteType.direct in
      let path = some ([], flood_hash_size n) in
      option_elim_eq NowQueues
        (lib.build_advert n.id.private_key_hex n.id.public_key_hex (clock_u32 env) n.cfg.name
          (position n.cfg))
        (λ _. nothing_new refl)
        (λ payload _.
          option_elim_eq NowQueues (lib.build_packet route PayloadType.advert payload path)
            (λ _. nothing_new refl)
            (λ bytes e. marked payload bytes n (builds route PayloadType.advert path e) refl))

  pub send_channel_text-Marks :
      (f : Bytes) → IsU32 env.clock → NowMarks (send_channel_text lib env n f)
  unfolding send_channel_text
  send_channel_text-Marks f w =
      let now : clock_u32 env ≡ env.clock = mod-eq_of_lt w in
      let ch = get_or n.channels (get_or f 2 0) no_channel in
      let path = some ([], flood_hash_size n) in
      if_elim NowMarks (ltb (length f) 8) (quietly refl) (
        if_elim NowMarks (leb (length n.channels) (get_or f 2 0) || is_empty ch.key_hex)
          (quietly refl)
          (option_elim_eq NowMarks
            (lib.build_group_text ch.key_hex n.cfg.name (until_nul (drop 7 f)) (clock_u32 env) 0)
            (λ _. quietly refl)
            (λ payload _.
              option_elim_eq NowMarks (flood_packet lib n PayloadType.group_text payload)
                (λ _. quietly refl)
                (λ bytes e. rw now (record {
                  queued =
                      marked payload bytes n (builds RouteType.flood PayloadType.group_text path e)
                        refl;
                })))))

  pub direct-Builds :
      (c : Contact) (kind : PayloadType) (payload bytes : Bytes)
      → direct_packet lib kind payload c.out_path c.out_path_len ≡ some bytes
      → Builds lib payload bytes
  direct-Builds c kind payload bytes e = builds RouteType.direct kind _ e

  pub flood-Builds :
      (kind : PayloadType) (payload bytes : Bytes)
      → flood_packet lib n kind payload ≡ some bytes
      → Builds lib payload bytes
  flood-Builds kind payload bytes e = builds RouteType.flood kind _ e

  pub send_text_to-Marks : (f : Bytes) (e : Str × Contact) → NowMarks (send_text_to lib env n f e)
  unfolding send_text_to cache_secret add_pending_ack enqueue_tx mark_seen
  send_text_to-Marks f (key, c) =
      let payload =
        lib.build_text_message (with_secret lib n c).secret_hex (get_or c.pub_key 0 0)
          (get_or n.id.my_pub 0 0) (get_u32 f 3) (get_or f 2 0) (until_nul (drop 13 f)) in
      option_elim_eq NowMarks (routed_packet lib n c PayloadType.text_message payload)
        (λ _. quietly refl)
        (λ bytes e. record {
          queued =
              one_more payload bytes
                (either lib (c.out_path_len == 0xFF) payload bytes
                  (flood-Builds PayloadType.text_message payload bytes)
                  (direct-Builds c PayloadType.text_message payload bytes) e)
                refl (find-insert_self (hex_of lib payload) (clock_us env) n.seen);
        })

  pub send_to_contact-Queues :
      (c : Contact) (kind : PayloadType) (payload : Bytes) (m n' : Node)
      → send_to_contact lib env c kind payload m ≡ some n'
      → m.tx_queue ≡ n.tx_queue
      → NowQueues n'
  unfolding send_to_contact
  send_to_contact-Queues c kind payload m n' e q =
      let packet =
        if is_flooded c
        then lib.build_packet RouteType.flood kind payload none
        else direct_packet lib kind payload c.out_path c.out_path_len in
      option_elim_eq (λ o. (n' : Node) → o ≡ some n' → NowQueues n') packet (λ _ n' e. cc)
        (λ bytes e n' e'. subst NowQueues (some-injective _ _ e') (
          marked payload bytes m
            (either lib (is_flooded c) payload bytes (builds RouteType.flood kind none)
              (direct-Builds c kind payload bytes) e)
            q))
        n' e
