-- ===== src/Node/Entries.antt =====
-- The commands of sdr-node/src/node.cpp on single contacts: what CMD_GET_CONTACT_BY_KEY finds
-- after a contact was written or removed, and what a written contact keeps of the frame.
use meshcore_open_sdr.Shared.{
  Option, [], ap, arith, false, none, refl, some, true, ◌∙◌, ◌≡◌, ◌≢◌, ◌≤◌,
}
use meshcore_open_sdr.Library.{Library}
use meshcore_open_sdr.Node.Contacts.{
  add_update_contact, contact_of_frame, get_contact_by_key, key_at, remove_contact, secret_of,
}
use meshcore_open_sdr.Node.Files.{persist_contacts}
use meshcore_open_sdr.Node.Frames.{contact_frame}
use meshcore_open_sdr.Node.State.{Ambient, Contact, Node, err_frame, reply}
use meshcore_open_sdr.Shared.Lists.{length}
use meshcore_open_sdr.Shared.Map.{
  erase, find, find-erase_other, find-erase_self, find-insert_other, find-insert_self, insert,
  nat_key, str_key,
}
use meshcore_open_sdr.Shared.Tests.{leb, ltb}
use meshcore_open_sdr.Shared.Text.{Bytes, Str}

get_contact_lem :
    (lib : Library) (n : Node) (f : Bytes) (found : Option Contact)
    → 33 ≤ length f
    → find (key_at lib 1 f) n.contacts ≡ found
    → get_contact_by_key lib n f
      ≡ elim found [ none ↦ reply n (err_frame 2) | some c ↦ reply n (contact_frame c 3) ]
unfolding get_contact_by_key
get_contact_lem lib n f found h e = let e1 : ltb (length f) 33 ≡ false = ground arith in rw (e1, e)

-- CMD_REMOVE_CONTACT removes the contact of that key and no other; but it answers nothing, and the
-- contacts file keeps the row that it had.
pub remove_contact_lem :
    (lib : Library) (n : Node) (f : Bytes)
    → 33 ≤ length f
    → let o = remove_contact lib n f in
      (get_contact_by_key lib o.node f ≡ reply o.node (err_frame 2))
      × ((key : Str) → key_at lib 1 f ≢ key → find key o.node.contacts ≡ find key n.contacts)
      × (o.replies ≡ [])
      × (o.node.files ≡ n.files)
unfolding remove_contact
remove_contact_lem lib n f h =
    let key = key_at lib 1 f in
    let e : leb 33 (length f) ≡ true = ground arith in
    rw e (
      get_contact_lem lib (record n { contacts = erase key n.contacts }) f none h
          (find-erase_self key n.contacts),
      λ k other. find-erase_other key k n.contacts other,
      refl,
      refl,
    )

persist_contacts-contacts :
    (lib : Library) (env : Ambient) (n : Node) → (persist_contacts lib env n).contacts ≡ n.contacts
unfolding persist_contacts
persist_contacts-contacts lib env n = ground arith

-- A contact that CMD_ADD_UPDATE_CONTACT wrote is what CMD_GET_CONTACT_BY_KEY answers for its key,
-- stored with the shared secret that was cached for that key, and every other contact stays.
pub add_update_contact_lem :
    (lib : Library) (env : Ambient) (n : Node) (f : Bytes)
    → 137 ≤ length f
    → let o = add_update_contact lib env n f in
      let c = contact_of_frame env f (secret_of (find (key_at lib 1 f) n.contacts)) in
      (get_contact_by_key lib o.node f ≡ reply o.node (contact_frame c 3))
      × ((key : Str) → key_at lib 1 f ≢ key → find key o.node.contacts ≡ find key n.contacts)
      × (find (key_at lib 1 f) o.node.contacts ≡ some c)
unfolding add_update_contact
add_update_contact_lem lib env n f h =
    let key = key_at lib 1 f in
    let c = contact_of_frame env f (secret_of (find key n.contacts)) in
    let e : ltb (length f) 137 ≡ false = ground arith in
    let n' : Node = persist_contacts lib env (record n { contacts = insert key c n.contacts }) in
    let stored =
      persist_contacts-contacts lib env (record n { contacts = insert key c n.contacts }) in
    let found = ap (find key) stored ∙ find-insert_self key c n.contacts in
    rw e (
      get_contact_lem lib n' f (some c) (omega arith) found,
      λ k other. ap (find k) stored ∙ find-insert_other key k c n.contacts other,
      found,
    )
