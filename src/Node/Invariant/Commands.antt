-- ===== src/Node/Invariant/Commands.antt =====
-- Every command of handleCommand in sdr-node/src/node.cpp keeps the invariant of the node.
use meshcore_open_sdr.Shared.{arith, some, ◌≡◌}
use meshcore_open_sdr.Library.{Library, PayloadType}
use meshcore_open_sdr.Node.Contacts.{
  add_update_contact, get_advert_path, get_channel, get_channel_at, get_contact_by_key, key_at,
  remove_contact, reset_path, set_channel, sync_next_message, without_path,
}
use meshcore_open_sdr.Node.Files.{persist_channels}
use meshcore_open_sdr.Node.Invariant.{
  IsSound, Keeps, keep, persist_contacts-IsSound, put_contact-IsSound, put_contacts-IsSound,
  put_scope-IsSound, save_prefs-IsSound, sent-IsSound,
}
use meshcore_open_sdr.Node.Sending.{send_channel_text, send_to_contact}
use meshcore_open_sdr.Node.Settings.{
  get_default_flood_scope, get_stats, set_advert_latlon, set_advert_name, set_default_flood_scope,
  set_path_hash_mode, set_radio_params,
}
use meshcore_open_sdr.Node.State.{Ambient, Contact, Node, Outcome}
use meshcore_open_sdr.Shared.Map.{erase-IsSorted, find, nat_key, str_key}
use meshcore_open_sdr.Shared.Tests.{if_elim, option_elim}
use meshcore_open_sdr.Shared.Text.{Bytes}

pub set_advert_name-IsSound : (n : Node) (f : Bytes) → IsSound n → Keeps (set_advert_name n f)
unfolding set_advert_name
set_advert_name-IsSound n f s = ground arith

pub set_advert_latlon-IsSound :
    (lib : Library) (n : Node) (f : Bytes) → IsSound n → Keeps (set_advert_latlon lib n f)
unfolding set_advert_latlon
set_advert_latlon-IsSound lib n f s = ground arith

pub set_radio_params-IsSound : (n : Node) (f : Bytes) → IsSound n → Keeps (set_radio_params n f)
unfolding set_radio_params
set_radio_params-IsSound n f s = ground arith

pub get_stats-IsSound :
    (env : Ambient) (n : Node) (f : Bytes) → IsSound n → Keeps (get_stats env n f)
unfolding get_stats
get_stats-IsSound env n f s = ground arith

pub sync-IsSound : (n : Node) → IsSound n → Keeps (sync_next_message n)
unfolding sync_next_message
sync-IsSound n s = ground arith

send_to_contact-IsSound :
    (lib : Library) (env : Ambient) (c : Contact) (kind : PayloadType) (p : Bytes) (n : Node)
    {n' : Node}
    → send_to_contact lib env c kind p n ≡ some n'
    → IsSound n
    → IsSound n'
unfolding send_to_contact
send_to_contact-IsSound lib env c kind p n e s = grind (arith, sent-IsSound)

send_channel_text-IsSound :
    (lib : Library) (env : Ambient) (n : Node) (f : Bytes)
    → IsSound n
    → Keeps (send_channel_text lib env n f)
unfolding send_channel_text
send_channel_text-IsSound lib env n f s = grind (arith, sent-IsSound)

pub set_path_hash_mode-IsSound :
    (lib : Library) (env : Ambient) (n : Node) (f : Bytes)
    → IsSound n
    → Keeps (set_path_hash_mode lib env n f)
unfolding set_path_hash_mode
set_path_hash_mode-IsSound lib env n f s = grind (arith, save_prefs-IsSound)

pub set_scope-IsSound :
    (lib : Library) (env : Ambient) (n : Node) (f : Bytes)
    → IsSound n
    → Keeps (set_default_flood_scope lib env n f)
unfolding set_default_flood_scope
set_scope-IsSound lib env n f s =
    if_elim Keeps _
      (if_elim Keeps _ (keep s) (keep (save_prefs-IsSound lib env _ (put_scope-IsSound _ _ n s))))
      (keep (save_prefs-IsSound lib env _ (put_scope-IsSound _ _ n s)))

pub get_scope-IsSound : (n : Node) → IsSound n → Keeps (get_default_flood_scope n)
unfolding get_default_flood_scope
get_scope-IsSound n s = ground arith

pub set_channel-IsSound :
    (lib : Library) (env : Ambient) (n : Node) (f : Bytes)
    → IsSound n
    → Keeps (set_channel lib env n f)
unfolding set_channel persist_channels
set_channel-IsSound lib env n f s = ground arith

pub reset_path-IsSound :
    (lib : Library) (env : Ambient) (n : Node) (f : Bytes)
    → IsSound n
    → Keeps (reset_path lib env n f)
unfolding reset_path
reset_path-IsSound lib env n f s =
    if_elim Keeps _
      (option_elim Keeps (find (key_at lib 1 f) n.contacts) (keep s) (λ c. keep (
        persist_contacts-IsSound lib env _
          (put_contact-IsSound (key_at lib 1 f) (without_path c) n s))))
      (keep s)

pub remove_contact-IsSound :
    (lib : Library) (n : Node) (f : Bytes) → IsSound n → Keeps (remove_contact lib n f)
unfolding remove_contact
remove_contact-IsSound lib n f s = ground (
  arith,
  put_contacts-IsSound _ n (erase-IsSorted (key_at lib 1 f) n.contacts s.contacts_sorted) s,
)

pub add_update_contact-IsSound :
    (lib : Library) (env : Ambient) (n : Node) (f : Bytes)
    → IsSound n
    → Keeps (add_update_contact lib env n f)
unfolding add_update_contact
add_update_contact-IsSound lib env n f s =
    if_elim Keeps _ (keep s)
      (keep (persist_contacts-IsSound lib env _ (put_contact-IsSound (key_at lib 1 f) _ n s)))

pub get_advert_path-IsSound :
    (lib : Library) (n : Node) (f : Bytes) → IsSound n → Keeps (get_advert_path lib n f)
unfolding get_advert_path
get_advert_path-IsSound lib n f s = ground arith

pub get_contact_by_key-IsSound :
    (lib : Library) (n : Node) (f : Bytes) → IsSound n → Keeps (get_contact_by_key lib n f)
unfolding get_contact_by_key
get_contact_by_key-IsSound lib n f s = ground arith

pub get_channel-IsSound :
    (lib : Library) (n : Node) (f : Bytes) (o : Outcome)
    → get_channel lib n f ≡ some o
    → IsSound n
    → Keeps o
unfolding get_channel get_channel_at
get_channel-IsSound lib n f o e s = ground arith
