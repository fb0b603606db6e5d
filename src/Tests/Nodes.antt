-- ===== src/Tests/Nodes.antt =====
-- A node's queues, contacts and channels at concrete inputs.
use meshcore_open_sdr.Shared.{[], arith, false, refl, some, true, ◌++◌, ◌∷◌, ◌≡◌, ◌≢◌}
use meshcore_open_sdr.Node.Answers.{
  accept_path, ack_bytes, confirmation, parse_path, path_plain, take_ack, try_contacts,
}
use meshcore_open_sdr.Node.ContactFrames.{FitsFrame, contact_of_frame-contact_frame}
use meshcore_open_sdr.Node.Contacts.{
  add_update_contact, contact_of_frame, contacts_since, get_channel, get_contact_by_key,
  get_contacts, key_at, most_recent, newer, no_channel, remove_contact, secret_of, set_channel,
}
use meshcore_open_sdr.Node.Dedup.{seen_before_refines}
use meshcore_open_sdr.Node.Entries.{add_update_contact_lem, remove_contact_lem}
use meshcore_open_sdr.Node.Frames.{contact_frame}
use meshcore_open_sdr.Node.Inbox.{sync_replies, sync_replies_all}
use meshcore_open_sdr.Node.Pending.{Takes, take_ack-Takes, take_pending-Takes}
use meshcore_open_sdr.Node.Queues.{is_recent, seen_before}
use meshcore_open_sdr.Node.Responses.{answers, take_pending}
use meshcore_open_sdr.Node.Returned.{accept_path-path_plain, padded, parse_path-path_plain}
use meshcore_open_sdr.Node.Slots.{channel_reply, get_channel-set_channel, set_channel-other}
use meshcore_open_sdr.Node.State.{Node, PendingAck, clock_u32, err_frame, reply}
use meshcore_open_sdr.Node.Syncing.{get_contacts_again}
use meshcore_open_sdr.Node.Trials.{FirstOf, try_contacts-FirstOf}
use meshcore_open_sdr.Shared.Lists.{drop, get_or, replicate}
use meshcore_open_sdr.Shared.Map.{find, nat_key, str_key}
use meshcore_open_sdr.Shared.Tests.{◌==◌}
use meshcore_open_sdr.Shared.Text.{Bytes, Str, codes, str_eq}
use meshcore_open_sdr.Tests.HexText.{sample_lib-HexInverts}
use meshcore_open_sdr.Tests.Samples.{
  alice, alice_key, plain_text, sample_env, sample_lib, sample_node, sample_node-IsSound,
  sample_packet,
}
use meshcore_open_sdr.Wire.{get_u32, u32}

abbrev recent : Str
recent = codes "bb"

seen_before_refines_example :
    ((seen_before recent 999_000_000 sample_node).0 ≡ false)
    × (is_recent 1_000_000_000 (find recent (seen_before recent 999_000_000 sample_node).1.seen)
        ≡ true)
unfolding find str_eq
seen_before_refines_example =
    seen_before_refines recent recent 999_000_000 1_000_000_000 sample_node
      sample_node-IsSound.seen_sorted (omega arith)

take_pending-Takes_example :
    Takes
      (answers (replicate 32 7) 4 1_000_000_000)
      sample_node.pending_reqs
      (take_pending (replicate 32 7) 4 1_000_000_000 sample_node.pending_reqs)
take_pending-Takes_example =
    take_pending-Takes (replicate 32 7) 4 1_000_000_000 sample_node.pending_reqs

take_ack-Takes_example :
    Takes (λ a. a.ack == 7) sample_node.pending_acks (take_ack 7 sample_node.pending_acks)
take_ack-Takes_example = take_ack-Takes 7 sample_node.pending_acks

sync_replies_all_example :
    sync_replies 3 sample_node ≡ (16 ∷ 1 ∷ []) ∷ (17 ∷ 2 ∷ []) ∷ (10 ∷ []) ∷ []
sync_replies_all_example = sync_replies_all sample_node

-- CMD_SET_CHANNEL for slot 2, and a query for it.
abbrev channel_frame : Bytes
channel_frame = (32 ∷ 2 ∷ b'x' ∷ replicate 31 0) ++ replicate 16 5

get_channel-set_channel_example :
    get_channel sample_lib
      (set_channel sample_lib sample_env sample_node channel_frame).node
      (31 ∷ 2 ∷ [])
    ≡ some (
        reply
          (set_channel sample_lib sample_env sample_node channel_frame).node
          (channel_reply 2 channel_frame))
get_channel-set_channel_example =
    get_channel-set_channel sample_lib sample_env sample_node channel_frame (31 ∷ 2 ∷ [])
      sample_lib-HexInverts (omega arith) (omega arith) (omega arith) (omega arith) refl

set_channel-other_example :
    get_or (set_channel sample_lib sample_env sample_node channel_frame).node.channels 0 no_channel
    ≡ get_or sample_node.channels 0 no_channel
set_channel-other_example =
    set_channel-other sample_lib sample_env sample_node channel_frame 0 (omega arith) (omega arith)
      (λ e. omega (arith, e))

alice_changed : contacts_since 100 sample_node.contacts ≢ []
unfolding contacts_since
alice_changed e = cc

first_answer :
    (get_contacts sample_node (4 ∷ u32 100)).replies
    ≡ ((2 ∷ u32 1) ∷ contact_frame alice 3 ∷ []) ++ ((4 ∷ u32 900) ∷ [])
unfolding get_contacts contacts_since most_recent newer get_u32 contact_frame
first_answer = refl

get_contacts_again_example :
    (get_contacts sample_node (4 ∷ drop 1 (4 ∷ u32 900))).replies ≡ (2 ∷ u32 1) ∷ (4 ∷ u32 0) ∷ []
get_contacts_again_example =
    get_contacts_again sample_node (4 ∷ u32 100) ((2 ∷ u32 1) ∷ contact_frame alice 3 ∷ [])
      (4 ∷ u32 900) (omega arith, tt) (omega arith) first_answer (omega arith)

-- Alice's frame as the app sends it, and the frame that removes her.
abbrev alice_frame : Bytes
alice_frame = (9 ∷ replicate 32 7) ++ ((2 ∷ replicate 66 0) ++ (codes "Bob" ++ replicate 45 0))

add_update_contact_lem_example :
    let o = add_update_contact sample_lib sample_env sample_node alice_frame in
    let c =
      contact_of_frame sample_env alice_frame
        (secret_of (find (key_at sample_lib 1 alice_frame) sample_node.contacts)) in
    (get_contact_by_key sample_lib o.node alice_frame ≡ reply o.node (contact_frame c 3))
    × ((key : Str)
        → key_at sample_lib 1 alice_frame ≢ key
        → find key o.node.contacts ≡ find key sample_node.contacts)
    × (find (key_at sample_lib 1 alice_frame) o.node.contacts ≡ some c)
add_update_contact_lem_example =
    add_update_contact_lem sample_lib sample_env sample_node alice_frame (omega arith)

abbrev removal : Bytes
removal = 15 ∷ replicate 32 7

remove_contact_lem_example :
    let o = remove_contact sample_lib sample_node removal in
    (get_contact_by_key sample_lib o.node removal ≡ reply o.node (err_frame 2))
    × ((key : Str)
        → key_at sample_lib 1 removal ≢ key
        → find key o.node.contacts ≡ find key sample_node.contacts)
    × (o.replies ≡ [])
    × (o.node.files ≡ sample_node.files)
remove_contact_lem_example = remove_contact_lem sample_lib sample_node removal (omega arith)

alice-FitsFrame : FitsFrame alice
alice-FitsFrame = record {
  key_size = refl;
  name_size = omega arith;
  name_text = (
    (λ e. omega (arith, e)),
    (
      (λ e. omega (arith, e)),
      ((λ e. omega (arith, e)), ((λ e. omega (arith, e)), ((λ e. omega (arith, e)), tt))),
    ),
  );
  advert_word = omega arith;
  lat_word = omega arith;
  lon_word = omega arith;
  mod_word = omega arith;
}

contact_of_frame-contact_frame_example :
    contact_of_frame sample_env (contact_frame alice 9) (codes "aa") ≡ alice
contact_of_frame-contact_frame_example =
    contact_of_frame-contact_frame alice 9 alice-FitsFrame sample_env (codes "aa")

parse_path-path_plain_example :
    parse_path (padded 2 (path_plain (66, 1 ∷ 2 ∷ 3 ∷ 4 ∷ []) 3 (9 ∷ [])))
    ≡ some (record { len = 66; path = 1 ∷ 2 ∷ 3 ∷ 4 ∷ []; extra_type = 3; extra = 9 ∷ 0 ∷ 0 ∷ [] })
parse_path-path_plain_example = parse_path-path_plain 66 (1 ∷ 2 ∷ 3 ∷ 4 ∷ []) 3 (9 ∷ []) 2 refl

-- A message that waits for the acknowledgement 7 since 2 seconds.
abbrev awaited : PendingAck
awaited = record { ack = 7; sent_at = 998_000_000 }

abbrev waiting_node : Node
waiting_node = record sample_node { pending_acks = awaited ∷ [] }

awaited_first : take_ack 7 waiting_node.pending_acks ≡ some (awaited, [])
unfolding take_ack
awaited_first = refl

accept_path-path_plain_example :
    let o =
      accept_path sample_lib sample_env sample_packet alice_key alice
        (padded 5 (path_plain (1, 5 ∷ []) 3 (ack_bytes 7 plain_text sample_env)))
        waiting_node in
    (find alice_key o.node.contacts
      ≡ some
          (record alice { out_path_len = 1; out_path = 5 ∷ []; last_mod = clock_u32 sample_env }))
    × ((other : Str)
        → alice_key ≢ other
        → find other o.node.contacts ≡ find other waiting_node.contacts)
    × (o.node.pending_acks ≡ [])
    × (o.pushes ≡ (0x81 ∷ alice.pub_key) ∷ confirmation 7 awaited.sent_at sample_packet.time ∷ [])
accept_path-path_plain_example =
    accept_path-path_plain sample_lib sample_env sample_env sample_packet alice_key alice
      waiting_node (1, 5 ∷ []) 7 plain_text 5 awaited [] refl (omega arith) awaited_first

try_contacts-FirstOf_example :
    FirstOf sample_lib sample_node 7
      (λ s. sample_lib.mac_then_decrypt s (1 ∷ []))
      sample_node.contacts
      (try_contacts sample_lib sample_node 7
        (λ s. sample_lib.mac_then_decrypt s (1 ∷ []))
        sample_node.contacts).1
try_contacts-FirstOf_example =
    try_contacts-FirstOf sample_lib sample_node 7 (λ s. sample_lib.mac_then_decrypt s (1 ∷ []))
      sample_node.contacts
