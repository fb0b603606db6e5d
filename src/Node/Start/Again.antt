-- ===== src/Node/Start/Again.antt =====
-- A node that is started again on the files that it wrote.
use meshcore_open_sdr.Shared.{ap, arith, some, true, ℕ, ◌++◌, ◌∙◌, ◌≡◌}
use meshcore_open_sdr.Config.Channels.{load_channels, save_channels}
use meshcore_open_sdr.Config.Channels.RoundTrip.{IsWritable, load_channels-save_channels}
use meshcore_open_sdr.Library.{HexDigits, HexInverts, Library}
use meshcore_open_sdr.Node.Files.{
  contact_rows, contacts_header, persist_channels, persist_contacts, prefs_text, save_prefs,
}
use meshcore_open_sdr.Node.Invariant.{IsSound}
use meshcore_open_sdr.Node.Loading.{load_contacts_file, load_prefs}
use meshcore_open_sdr.Node.Loading.Corrupt.{IsLoaded, load_contacts_file-IsLoaded}
use meshcore_open_sdr.Node.Loading.PrefsFile.{HasPrefs, load_prefs-prefs_text, prefs_of}
use meshcore_open_sdr.Node.Loading.Table.{AllStorable, load_contacts_file-contact_rows, stored}
use meshcore_open_sdr.Node.Start.{Disk, start}
use meshcore_open_sdr.Node.State.{Ambient, Files, Identity, Node, RadioState, Settings}
use meshcore_open_sdr.Shared.Lists.{All}
use meshcore_open_sdr.Shared.Map.{IsSorted, Values, nat_key, str_key}

-- The three files after a run, each of which the node has written.
abbrev pub disk_of : Files → Disk
disk_of files = record {
  channels = some files.channels;
  contacts = some files.contacts;
  prefs = some files.prefs;
}

abbrev pub all_saved : Library → Ambient → Node → Node
all_saved lib env n = persist_channels env (persist_contacts lib env (save_prefs lib env n))

-- What a restart has to find in a node: entries that each file can express.
pub record IsSaveable (lib : Library) (n : Node) : Type 0 where
  pub channels : All IsWritable n.channels
  pub contacts : AllStorable lib n.contacts
  pub prefs : HasPrefs n

module _ (lib : Library) (cfg : Settings) (mode : ℕ) (id : Identity) (radio : RadioState)
    (now : ℕ) where
  -- Whatever the files hold, a node starts with its queues within their limits and its maps sorted,
  -- and every contact that it has loaded has a key of 32 bytes and lengths that fit their bytes.
  pub start-IsSound :
      (disk : Disk)
      → IsSound (start lib cfg mode id radio now disk)
        × Values IsLoaded (start lib cfg mode id radio now disk).contacts
  unfolding start
  start-IsSound disk =
      let (sorted, loaded) = load_contacts_file-IsLoaded lib disk.contacts in
      (
        record {
          inbox_bound = omega arith;
          acks_bound = omega arith;
          reqs_bound = omega arith;
          traces_bound = omega arith;
          contacts_sorted = sorted;
          seen_sorted = tt;
          traces_sorted = tt;
        },
        loaded,
      )

  saved_texts :
      (env : Ambient) (n : Node)
      → env.writable ≡ true
      → (all_saved lib env n).files ≡ record {
        channels = save_channels n.channels;
        contacts = contacts_header ++ contact_rows lib n.contacts;
        prefs = prefs_text lib n;
      }
  unfolding persist_channels persist_contacts save_prefs
  saved_texts env n w = rw w

  -- A node that has written its files has, when it is started again with any configuration, the
  -- channels at their indices, every contact with its route (less the cached secrets and the
  -- lengths of empty paths), the path hash mode and the flood scope that it had. Its channels,
  -- contacts and settings have to be such as the files can express.
  pub start-all_saved :
      (env : Ambient) (n : Node)
      → HexInverts lib
      → HexDigits lib
      → env.writable ≡ true
      → IsSorted n.contacts
      → IsSaveable lib n
      → let n' = start lib cfg mode id radio now (disk_of (all_saved lib env n).files) in
        (n'.channels ≡ n.channels) × (n'.contacts ≡ stored n.contacts) × (prefs_of n' ≡ prefs_of n)
  unfolding start
  start-all_saved env n inverts hex writable sorted s =
      let e = saved_texts env n writable in
      (
        ap (λ (f : Files). load_channels (some f.channels)) e
            ∙ load_channels-save_channels n.channels s.channels,
        ap (λ (f : Files). load_contacts_file lib (some f.contacts)) e
            ∙ load_contacts_file-contact_rows lib inverts hex n.contacts s.contacts sorted,
        ap (λ (f : Files). load_prefs lib mode (some f.prefs)) e
            ∙ load_prefs-prefs_text lib hex n s.prefs mode,
      )
