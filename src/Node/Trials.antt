-- ===== src/Node/Trials.antt =====
-- How onRxPacket of sdr-node/src/node.cpp finds whom an encrypted packet is from: it tries the
-- contacts whose key begins with the source hash, in the order of the keys.
use meshcore_open_sdr.Shared.{Option, [], arith, inl, inr, none, some, ℕ, ◌++◌, ◌∷◌, ◌≡◌}
use meshcore_open_sdr.Library.{Library}
use meshcore_open_sdr.Node.Answers.{try_contacts}
use meshcore_open_sdr.Node.Queues.{with_secret}
use meshcore_open_sdr.Node.State.{Contact, Node}
use meshcore_open_sdr.Shared.Lists.{get_or}
use meshcore_open_sdr.Shared.Map.{Map, Values, nat_key, str_key}
use meshcore_open_sdr.Shared.Tests.{Bool-cases, Option-cases, ◌==◌}
use meshcore_open_sdr.Shared.Text.{Str}

module _ {ℓ} {A : Type ℓ} (lib : Library) (n : Node) (source : ℕ) (decrypt : Str → Option A) where
  -- A contact that is not meant, or whose secret does not decrypt the packet.
  abbrev pub Fails : Contact → Type ℓ
  Fails c = get_or c.pub_key 0 0 ≡ source → decrypt (with_secret lib n c).secret_hex ≡ none

  -- The first contact that is meant and whose secret decrypts the packet, if there is one.
  pub data FirstOf : Map Str Contact → Option (Str × Contact × A) → Type ℓ where
    nobody : {m : Map Str Contact} → Values Fails m → FirstOf m none
    somebody :
        (front back : Map Str Contact) (key : Str) (c : Contact) (a : A)
        → Values Fails front
        → get_or c.pub_key 0 0 ≡ source
        → decrypt (with_secret lib n c).secret_hex ≡ some a
        → FirstOf (front ++ ((key, c) ∷ back)) (some (key, with_secret lib n c, a))

  later :
      (key : Str) (c : Contact) (m : Map Str Contact) (r : Option (Str × Contact × A))
      → Fails c
      → FirstOf m r
      → FirstOf ((key, c) ∷ m) r
  later key c m r f (nobody h) = nobody (f, h)
  later key c m r f (somebody front back k d a h e e') =
      somebody ((key, c) ∷ front) back k d a (f, h) e e'

  -- The trial ends at the first contact that is meant and whose secret decrypts the packet, and
  -- finds nobody only where there is none; no secret that fails is taken for one that decrypts.
  pub try_contacts-FirstOf :
      (m : Map Str Contact) → FirstOf m (try_contacts lib n source decrypt m).1
  unfolding try_contacts
  try_contacts-FirstOf [] = nobody tt
  try_contacts-FirstOf ((key, c) ∷ m) = elim (Bool-cases (get_or c.pub_key 0 0 == source)) [
    | inl e ↦ elim (Option-cases (decrypt (with_secret lib n c).secret_hex)) [
      | inl e' ↦ rw (e, e') (later key c m _ (λ _. e') (try_contacts-FirstOf m))
      | inr (a, e') ↦ rw (e, e') (somebody [] m key c a tt (ground (arith, e)) e')
    ]
    | inr e ↦ rw e (later key c m _ (λ h. ground (arith, e, h)) (try_contacts-FirstOf m))
  ]
