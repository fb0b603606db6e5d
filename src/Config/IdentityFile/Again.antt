-- ===== src/Config/IdentityFile/Again.antt =====
-- That NodeIdentity::loadOrCreate of sdr-node/src/node_config.cpp gives the same identity on every
-- later start.
use meshcore_open_sdr.Shared.{
  Bool, Option, [], ap, arith, false, inl, inr, none, refl, some, true, ℕ, ◌++◌, ◌<◌, ◌∙◌, ◌∷◌, ◌≡◌,
}
use meshcore_open_sdr.Config.Channels.{all_hex, is_hex_digit}
use meshcore_open_sdr.Config.IdentityFile.{
  NodeIdentity, create_identity, first_word, from_seed, leading_word, load_identity, load_or_create,
  ok,
}
use meshcore_open_sdr.Shared.Lists.{length, length-append}
use meshcore_open_sdr.Shared.Scan.{is_blank, skip_blanks}
use meshcore_open_sdr.Shared.Tests.{Bool-cases, ◌==◌}
use meshcore_open_sdr.Shared.Text.{Bytes, Str, until_nul}

-- Half of a private key: 32 bytes as hex text.
pub record IsHalf (s : Str) : Type 0 where
  pub digits : all_hex s ≡ true
  pub size : length s ≡ 64

-- What Ed25519 promises: of a private key of 128 hex digits the public key depends on the seed
-- alone, the first 64; and it is 64 hex digits. Nothing is promised of other texts.
pub record DerivesFromSeed (derive : Str → Option Str) : Type 0 where
  pub seed_only :
      (seed s t : Str) → IsHalf seed → IsHalf s → IsHalf t → derive (seed ++ s) ≡ derive (seed ++ t)
  pub public_digits : (s key : Str) → derive s ≡ some key → all_hex key ≡ true
  pub public_length : (s key : Str) → derive s ≡ some key → length key ≡ 64

-- What bytesToHex promises of 32 bytes.
pub record WritesSeeds (to_hex : Bytes → Str) : Type 0 where
  pub seed_digits : (seed : Bytes) → length seed ≡ 32 → all_hex (to_hex seed) ≡ true
  pub seed_length : (seed : Bytes) → length seed ≡ 32 → length (to_hex seed) ≡ 64

hex-solid : (c : ℕ) → is_hex_digit c ≡ true → is_blank c ≡ false
hex-solid c h = ground arith

hex-no_nul : (c : ℕ) → is_hex_digit c ≡ true → (c == 0) ≡ false
hex-no_nul c h = ground arith

all_hex-append : (s t : Str) → all_hex s ≡ true → all_hex t ≡ true → all_hex (s ++ t) ≡ true
unfolding all_hex
all_hex-append [] t h k = k
all_hex-append (c ∷ s) t h k = elim (Bool-cases (is_hex_digit c)) [
  | inl e ↦ rw e (all_hex-append s t (rw e at h) k)
  | inr e ↦ cc (e, h)
]

leading_word-line : (s : Str) → all_hex s ≡ true → leading_word (s ++ (10 ∷ [])) ≡ s
unfolding leading_word all_hex
leading_word-line [] h = refl
leading_word-line (c ∷ s) h = elim (Bool-cases (is_hex_digit c)) [
  | inl e ↦ rw (hex-solid c e, leading_word-line s (rw e at h))
  | inr e ↦ cc (e, h)
]

until_nul-hex : (s : Str) → all_hex s ≡ true → until_nul s ≡ s
unfolding until_nul all_hex
until_nul-hex [] h = refl
until_nul-hex (c ∷ s) h = elim (Bool-cases (is_hex_digit c)) [
  | inl e ↦ rw (hex-no_nul c e, until_nul-hex s (rw e at h))
  | inr e ↦ cc (e, h)
]

skip_blanks-hex :
    (s : Str) → all_hex s ≡ true → 0 < length s → skip_blanks (s ++ (10 ∷ [])) ≡ s ++ (10 ∷ [])
unfolding skip_blanks all_hex
skip_blanks-hex [] h k = absurd (omega arith)
skip_blanks-hex (c ∷ s) h k = elim (Bool-cases (is_hex_digit c)) [
  | inl e ↦ rw (hex-solid c e)
  | inr e ↦ cc (e, h)
]

first_word-line :
    (s : Str) → all_hex s ≡ true → 0 < length s → first_word (until_nul s ++ (10 ∷ [])) ≡ s
unfolding first_word
first_word-line s h k =
    ap (λ (t : Str). leading_word (skip_blanks (t ++ (10 ∷ [])))) (until_nul-hex s h)
    ∙ ap leading_word (skip_blanks-hex s h k)
    ∙ leading_word-line s h

module _ (derive : Str → Option Str) (to_hex : Bytes → Str) (keys : DerivesFromSeed derive)
    (seeds : WritesSeeds to_hex) where
  -- A private key that was made from a seed is loaded as the identity that it was made for.
  load_identity-written :
      (seed : Bytes) (key : Str)
      → length seed ≡ 32
      → derive (to_hex seed ++ to_hex seed) ≡ some key
      → load_identity derive (until_nul (to_hex seed ++ key) ++ (10 ∷ []))
        ≡ ok (record { private_key_hex = to_hex seed ++ key; public_key_hex = key })
  unfolding load_identity
  load_identity-written seed key h e =
      let hex = to_hex seed ++ key in
      let full : length hex ≡ 128 = omega (
        arith,
        length-append (to_hex seed) key,
        seeds.seed_length seed h,
        keys.public_length _ key e,
      ) in
      let digits =
        all_hex-append (to_hex seed) key (seeds.seed_digits seed h) (keys.public_digits _ key e) in
      let half : IsHalf (to_hex seed) = record {
        digits = seeds.seed_digits seed h;
        size = seeds.seed_length seed h;
      } in
      let derives : derive hex ≡ some key =
        keys.seed_only (to_hex seed) key (to_hex seed) half
          (record { digits = keys.public_digits _ key e; size = keys.public_length _ key e }) half
        ∙ e in
      rw (first_word-line hex digits (omega arith), full, derives)

  from_seed-again :
      (writable : Bool) (seed : Bytes) (o : Option Str) (id : NodeIdentity)
      → length seed ≡ 32
      → derive (to_hex seed ++ to_hex seed) ≡ o
      → (from_seed derive writable (to_hex seed) o).result ≡ ok id
      → (s : Str) × ((from_seed derive writable (to_hex seed) o).file ≡ some s)
        × (load_identity derive s ≡ ok id)
  from_seed-again writable seed none id h k e = absurd (cc)
  from_seed-again false seed (some key) id h k e = absurd (cc)
  from_seed-again true seed (some key) id h k e =
      (until_nul (to_hex seed ++ key) ++ (10 ∷ []), refl, load_identity-written seed key h k ∙ e)

  create_identity-again :
      (writable : Bool) (random : Option Bytes) (id : NodeIdentity)
      → ((seed : Bytes) → random ≡ some seed → length seed ≡ 32)
      → (create_identity derive to_hex writable random).result ≡ ok id
      → (s : Str) × ((create_identity derive to_hex writable random).file ≡ some s)
        × (load_identity derive s ≡ ok id)
  unfolding create_identity
  create_identity-again writable none id h e = absurd (cc)
  create_identity-again writable (some seed) id h e =
      from_seed-again writable seed (derive (to_hex seed ++ to_hex seed)) id (h seed refl) refl e

  -- Whatever identity a start got, loaded from the file or made anew, the next start gets the same
  -- from the file that the first one left, whatever random bytes there are and whether or not the
  -- file can be written, and leaves the file as it is.
  pub load_or_create-again :
      (writable writable' : Bool) (random random' : Option Bytes) (file : Option Str)
      (id : NodeIdentity)
      → ((seed : Bytes) → random ≡ some seed → length seed ≡ 32)
      → (load_or_create derive to_hex writable random file).result ≡ ok id
      → let file' = (load_or_create derive to_hex writable random file).file in
        load_or_create derive to_hex writable' random' file'
        ≡ record { result = ok id; file = file' }
  unfolding load_or_create
  load_or_create-again writable writable' random random' (some s) id h e = rw e
  load_or_create-again writable writable' random random' none id h e =
      let (s, wrote, back) = create_identity-again writable random id h e in rw (wrote, back)
