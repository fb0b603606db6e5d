-- ===== src/Config/IdentityFile.antt =====
-- NodeIdentity::loadOrCreate of sdr-node/src/node_config.cpp. The derivation of a public key from a
-- private one is Ed25519 of the library outside the repository, and so is bytesToHex: both are
-- arguments, `none` standing for a derivation that throws.
pub mod Again
use meshcore_open_sdr.Shared.{Bool, Option, [], none, some, ◌++◌, ◌∷◌}
use meshcore_open_sdr.Shared.Lists.{length}
use meshcore_open_sdr.Shared.Scan.{is_blank, skip_blanks}
use meshcore_open_sdr.Shared.Tests.{if◌then◌else◌, ◌==◌}
use meshcore_open_sdr.Shared.Text.{Bytes, Str, until_nul}

pub record NodeIdentity : Type 0 where
  pub private_key_hex : Str
  pub public_key_hex : Str

pub data IdentityError : Type 0 where
  bad_length bad_key no_random cannot_write : IdentityError

pub data IdentityResult : Type 0 where
  ok : NodeIdentity → IdentityResult
  err : IdentityError → IdentityResult

-- The result, and what the file holds afterwards; `none` where there is no file to open.
pub record Loaded : Type 0 where
  pub result : IdentityResult
  pub file : Option Str

unfoldable pub leading_word : Str → Str
leading_word [] = []
leading_word (c ∷ s) = if is_blank c then [] else c ∷ leading_word s

-- `f >> hex`: the first word of the file.
unfoldable pub first_word : Str → Str
unfolding skip_blanks leading_word
first_word s = leading_word (skip_blanks s)

module _ (derive : Str → Option Str) where
  abbrev pub derived : Str → Option Str → IdentityResult
  derived hex none = err bad_key
  derived hex (some key) = ok (record { private_key_hex = hex; public_key_hex = key })

  unfoldable pub load_identity : Str → IdentityResult
  load_identity s =
      let hex = first_word s in
      if length hex == 128 then derived hex (derive hex) else err bad_length

  -- `fprintf(out, "%s\n", …)` into a file that could be opened for writing.
  abbrev pub written : Bool → NodeIdentity → Loaded
  written writable id =
      if writable
      then record { result = ok id; file = some (until_nul id.private_key_hex ++ (10 ∷ [])) }
      else record { result = err cannot_write; file = none }

  abbrev pub from_seed : Bool → Str → Option Str → Loaded
  from_seed writable seed none = record { result = err bad_key; file = none }
  from_seed writable seed (some key) =
      written writable (record { private_key_hex = seed ++ key; public_key_hex = key })

  -- The 32 bytes of `RAND_bytes`, or `none` where it fails.
  unfoldable pub create_identity : (Bytes → Str) → Bool → Option Bytes → Loaded
  create_identity to_hex writable none = record { result = err no_random; file = none }
  create_identity to_hex writable (some seed) =
      from_seed writable (to_hex seed) (derive (to_hex seed ++ to_hex seed))

  unfoldable pub load_or_create : (Bytes → Str) → Bool → Option Bytes → Option Str → Loaded
  load_or_create to_hex writable random (some s) = record {
    result = load_identity s;
    file = some s;
  }
  load_or_create to_hex writable random none = create_identity to_hex writable random
