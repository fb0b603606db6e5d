-- ===== src/Daemon/Again.antt =====
-- What holds of a node from the start of main in sdr-node/src/main.cpp on, and from one start to
-- the next.
use meshcore_open_sdr.Shared.{
  Bool, List, Option, ap, false, inl, inr, none, refl, some, sym, true, ◌∙◌, ◌≡◌,
}
use meshcore_open_sdr.Config.IdentityFile.{
  IdentityResult, Loaded, NodeIdentity, err, load_or_create, ok,
}
use meshcore_open_sdr.Config.IdentityFile.Again.{DerivesFromSeed, WritesSeeds, load_or_create-again}
use meshcore_open_sdr.Config.NodeFile.{NodeConfig, load_config}
use meshcore_open_sdr.Daemon.{
  Boot, FileSystem, Outside, Running, Start, boot, boot_args, boot_configured, boot_with,
  files_after, loaded_identity, node_of, parse_args, running_with, up,
}
use meshcore_open_sdr.Node.Invariant.{IsSound}
use meshcore_open_sdr.Node.Run.{Reach, Reach-IsSound, System, at_work}
use meshcore_open_sdr.Node.Start.{start}
use meshcore_open_sdr.Node.Start.Again.{start-IsSound}
use meshcore_open_sdr.Shared.Lists.{length}
use meshcore_open_sdr.Shared.Tests.{Bool-cases}
use meshcore_open_sdr.Shared.Text.{Bytes, Str, codes, str_eq, str_eq_iff}
use mathlib.Core.Path.{subst}

module _ {Real : Type 0} (o : Outside Real) (s : Start) where
  boot_with-IsSound :
      (cfg : NodeConfig Real) (advertise : Bool) (fs : FileSystem) (id : IdentityResult)
      (r : Running Real)
      → boot_with o s cfg advertise fs id ≡ up r
      → IsSound r.node
  boot_with-IsSound cfg advertise fs (err e) r h = absurd (cc)
  boot_with-IsSound cfg advertise fs (ok id) r h =
      let same : node_of o s cfg id fs ≡ r.node = cc in
      subst IsSound same (start-IsSound _ _ _ _ _ _ _).0

  boot_configured-IsSound :
      (advertise : Bool) (fs : FileSystem) (cfg : Option (NodeConfig Real)) (r : Running Real)
      → boot_configured o s advertise fs cfg ≡ up r
      → IsSound r.node
  boot_configured-IsSound advertise fs none r h = absurd (cc)
  boot_configured-IsSound advertise fs (some cfg) r h =
      boot_with-IsSound cfg advertise (files_after o s cfg fs) (loaded_identity o s cfg fs).result r
        h

  boot_args-IsSound :
      (fs : FileSystem) (args : Option (Str × Bool)) (r : Running Real)
      → boot_args o s fs args ≡ up r
      → IsSound r.node
  boot_args-IsSound fs none r h = absurd (cc)
  boot_args-IsSound fs (some (path, advertise)) r h = boot_configured-IsSound advertise fs _ r h

  -- From every start of the daemon that comes up, on whatever files and with whatever arguments,
  -- over every interleaving of commands, packets, adverts, connections and transmissions, the queues
  -- stay within their limits and the maps keep one entry for a key.
  pub boot-IsSound :
      (fs : FileSystem) (args : List Str) (r : Running Real) (t : System)
      → boot o s fs args ≡ up r
      → Reach o.lib (at_work r.node) t
      → IsSound t.node
  unfolding boot
  boot-IsSound fs args r t h reach = Reach-IsSound o.lib _ t (boot_args-IsSound fs _ r h) reach

-- The configuration is not written over: where it is the identity's file too, that file is there.
files_after-config :
    {Real : Type 0} (o : Outside Real) (s : Start) (cfg : NodeConfig Real) (fs : FileSystem)
    (path contents : Str)
    → fs path ≡ some contents
    → files_after o s cfg fs path ≡ fs path
unfolding load_or_create
files_after-config o s cfg fs path contents e = elim (Bool-cases (str_eq path cfg.identity_file)) [
  | inl same ↦
      let p : path ≡ cfg.identity_file = (str_eq_iff path cfg.identity_file).0 same in
      let e' : fs cfg.identity_file ≡ some contents = sym (ap fs p) ∙ e in rw (same, e', e)
  | inr other ↦ rw other
]

files_after-identity :
    {Real : Type 0} (o : Outside Real) (s : Start) (cfg : NodeConfig Real) (fs : FileSystem)
    → files_after o s cfg fs cfg.identity_file ≡ (loaded_identity o s cfg fs).file
files_after-identity o s cfg fs =
    let same : str_eq cfg.identity_file cfg.identity_file ≡ true =
      (str_eq_iff cfg.identity_file cfg.identity_file).1 refl in
    rw same

load_config-some :
    {Real : Type 0} (o : Outside Real) (file : Option Str) (cfg : NodeConfig Real)
    → load_config o.atof o.ten file ≡ some cfg
    → (contents : Str) × (file ≡ some contents)
unfolding load_config
load_config-some o none cfg h = absurd (cc)
load_config-some o (some contents) cfg h = (contents, refl)

node_of-id :
    {Real : Type 0} (o : Outside Real) (s s' : Start) (cfg : NodeConfig Real) (id : NodeIdentity)
    (fs fs' : FileSystem)
    → (node_of o s' cfg id fs).id ≡ (node_of o s cfg id fs').id
unfolding start
node_of-id o s s' cfg id fs fs' = refl

module _ {Real : Type 0} (o : Outside Real) (s s' : Start) (keys : DerivesFromSeed o.derive)
    (seeds : WritesSeeds o.lib.bytes_to_hex)
    (random : (seed : Bytes) → s.random ≡ some seed → length seed ≡ 32) where
  -- A start that comes up with the identity and the radio of another.
  abbrev ComesUp : Running Real → Boot Real → Type 0
  ComesUp r b = (r' : Running Real) × (b ≡ up r') × (r'.node.id ≡ r.node.id) × (r'.radio ≡ r.radio)

  loaded_again :
      (cfg : NodeConfig Real) (fs : FileSystem) (id : NodeIdentity)
      → (loaded_identity o s cfg fs).result ≡ ok id
      → (loaded_identity o s' cfg (files_after o s cfg fs)).result ≡ ok id
  loaded_again cfg fs id h =
      let again =
        load_or_create-again o.derive o.lib.bytes_to_hex keys seeds s.writable s'.writable s.random
          s'.random (fs cfg.identity_file) id random h in
      rw (files_after-identity o s cfg fs) (ap (λ (l : Loaded). l.result) again)

  boot_with-again :
      (path : Str) (advertise : Bool) (cfg : NodeConfig Real) (fs : FileSystem) (r : Running Real)
      (id : IdentityResult)
      → load_config o.atof o.ten (fs path) ≡ some cfg
      → (loaded_identity o s cfg fs).result ≡ id
      → boot_with o s cfg advertise (files_after o s cfg fs) id ≡ up r
      → ComesUp r (boot_args o s' r.files (some (path, advertise)))
  boot_with-again path advertise cfg fs r (err e) c k h = absurd (cc)
  boot_with-again path advertise cfg fs r (ok id) c k h =
      let fs' = files_after o s cfg fs in
      let same : running_with o s cfg advertise fs' id ≡ r = cc in
      let (contents, there) = load_config-some o (fs path) cfg c in
      let config : load_config o.atof o.ten (fs' path) ≡ some cfg =
        ap (load_config o.atof o.ten) (files_after-config o s cfg fs path contents there) ∙ c in
      subst (λ (r : Running Real). ComesUp r (boot_args o s' r.files (some (path, advertise)))) same
        (
          running_with o s' cfg advertise (files_after o s' cfg fs') id,
          ap (boot_configured o s' advertise fs') config
              ∙ ap (boot_with o s' cfg advertise (files_after o s' cfg fs'))
                  (loaded_again cfg fs id k),
          node_of-id o s s' cfg id (files_after o s' cfg fs') fs',
          refl,
        )

  boot_configured-again :
      (path : Str) (advertise : Bool) (fs : FileSystem) (r : Running Real)
      (cfg : Option (NodeConfig Real))
      → load_config o.atof o.ten (fs path) ≡ cfg
      → boot_configured o s advertise fs cfg ≡ up r
      → ComesUp r (boot_args o s' r.files (some (path, advertise)))
  boot_configured-again path advertise fs r none c h = absurd (cc)
  boot_configured-again path advertise fs r (some cfg) c h =
      boot_with-again path advertise cfg fs r (loaded_identity o s cfg fs).result c refl h

  boot_args-again :
      (fs : FileSystem) (r : Running Real) (args : Option (Str × Bool))
      → boot_args o s fs args ≡ up r
      → ComesUp r (boot_args o s' r.files args)
  boot_args-again fs r none h = absurd (cc)
  boot_args-again fs r (some (path, advertise)) h =
      boot_configured-again path advertise fs r (load_config o.atof o.ten (fs path)) refl h

  -- A daemon that came up comes up again with the same arguments on the files that the first start
  -- left, whatever the time and the random bytes are and whether or not a file can be written; it
  -- has the same identity and the same settings of its radio, also where the first start had to
  -- make the identity. Of a private key of 128 hex digits the public key has to depend on the seed
  -- alone and to be 64 hex digits, and the random bytes of a start are 32.
  pub boot-again :
      (fs : FileSystem) (args : List Str) (r : Running Real)
      → boot o s fs args ≡ up r
      → (r' : Running Real) × (boot o s' r.files args ≡ up r')
        × (r'.node.id ≡ r.node.id)
        × (r'.radio ≡ r.radio)
  unfolding boot
  boot-again fs args r h = boot_args-again fs r (parse_args (codes "sdr-node.conf") false args) h
