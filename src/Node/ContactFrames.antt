-- ===== src/Node/ContactFrames.antt =====
-- buildContactFrame and handleAddUpdateContact of sdr-node/src/node.cpp against each other: the
-- frame that a node sends for a contact, read as the frame that writes a contact.
use meshcore_open_sdr.Shared.{
  [], ap, arith, false, inl, inr, not, refl, suc, zero, ℕ, ◌&&◌, ◌++◌, ◌+◌, ◌-◌, ◌∙◌, ◌∷◌, ◌≡◌, ◌≢◌,
  ◌≤◌,
}
use meshcore_open_sdr.Node.Contacts.{contact_of_frame}
use meshcore_open_sdr.Node.Frames.{c_field, contact_frame, path_field}
use meshcore_open_sdr.Node.State.{Ambient, Contact, new_contact}
use meshcore_open_sdr.Shared.Lists.{
  All, drop, drop-append, drop_more, get_or, get_or-drop, length, length-append, length-drop,
  length-replicate, length-take, replicate, take, take-append, take_all,
}
use meshcore_open_sdr.Shared.Tests.{Bool-cases, leb, ◌==◌}
use meshcore_open_sdr.Shared.Text.{Bytes, Str, until_nul}
use meshcore_open_sdr.Wire.{IsU32, get_u32, slice, u32}
use meshcore_open_sdr.Wire.Words.{get_u32-drop, get_u32-u32}
use native.Mathlib.Nat.{mod-eq_of_lt}

-- A text that an eight-bit field holds: no NUL in it.
abbrev pub HasNoNul : Str → Type 0
HasNoNul = All (λ c. c ≢ 0)

until_nul-field : (s : Str) (k : ℕ) → HasNoNul s → until_nul (s ++ replicate k 0) ≡ s
unfolding until_nul
until_nul-field [] zero h = refl
until_nul-field [] (suc k) h = refl
until_nul-field (c ∷ s) k h =
    let e : (c == 0) ≡ false = ground (arith, h.0) in rw e (ap (◌∷◌ c) (until_nul-field s k h.1))

until_nul_all : (s : Str) → HasNoNul s → until_nul s ≡ s
unfolding until_nul
until_nul_all [] h = refl
until_nul_all (c ∷ s) h =
    let e : (c == 0) ≡ false = ground (arith, h.0) in rw e (ap (◌∷◌ c) (until_nul_all s h.1))

-- A name that fits its field is read back from it, and the field has its size.
until_nul-c_field : (s : Str) → HasNoNul s → length s ≤ 31 → until_nul (c_field 32 31 s) ≡ s
unfolding c_field
until_nul-c_field s h l = rw (until_nul_all s h, take_all 31 s l) (until_nul-field s _ h)

length-padded : (s : Bytes) (k : ℕ) → length s ≤ k → length (s ++ replicate (k - length s) 0) ≡ k
length-padded s k h =
    let zero_byte : ℕ = 0 in
    omega (
      arith,
      length-append s (replicate (k - length s) 0),
      length-replicate (k - length s) zero_byte,
    )

length-c_field : (s : Str) → length (c_field 32 31 s) ≡ 32
unfolding c_field
length-c_field s =
    length-padded (take 31 (until_nul s)) 32 (omega (arith, length-take 31 (until_nul s)))

length-path_field : (c : Contact) → length (path_field c) ≡ 64
unfolding path_field
length-path_field c =
    elim (Bool-cases (not (c.out_path_len == 0xFF) && leb (length c.out_path) 64)) [
      | inl e ↦ rw e (length-padded c.out_path 64 (ground (arith, e)))
      | inr e ↦ rw e refl
    ]

-- What a contact's frame keeps: the fields of the contact that fit theirs.
pub record FitsFrame (c : Contact) : Type 0 where
  pub key_size : length c.pub_key ≡ 32
  pub name_size : length c.name ≤ 31
  pub name_text : HasNoNul c.name
  pub advert_word : IsU32 c.last_advert
  pub lat_word : IsU32 c.lat
  pub lon_word : IsU32 c.lon
  pub mod_word : IsU32 c.last_mod

module _ (c : Contact) (code : ℕ) (fits : FitsFrame c) where
  abbrev numbers : Bytes
  numbers = u32 c.last_advert ++ (u32 c.lat ++ (u32 c.lon ++ u32 c.last_mod))

  from_type :
      drop 33 (contact_frame c code)
      ≡ (c.type ∷ 0 ∷ c.out_path_len ∷ []) ++ (path_field c ++ (c_field 32 31 c.name ++ numbers))
  unfolding contact_frame
  from_type = drop-append 32 c.pub_key _ fits.key_size

  from_name : drop 100 (contact_frame c code) ≡ c_field 32 31 c.name ++ numbers
  from_name =
      drop_more 33 67 (contact_frame c code)
      ∙ ap (drop 67) from_type
      ∙ drop-append 64 (path_field c) _ (length-path_field c)

  from_numbers : drop 132 (contact_frame c code) ≡ numbers
  from_numbers =
      drop_more 100 32 (contact_frame c code)
      ∙ ap (drop 32) from_name
      ∙ drop-append 32 (c_field 32 31 c.name) numbers (length-c_field c.name)

  number_at : (k : ℕ) → get_u32 (contact_frame c code) (132 + k) ≡ get_u32 (drop k numbers) 0
  number_at k =
      get_u32-drop (132 + k) (contact_frame c code)
      ∙ ap (λ f. get_u32 f 0) (drop_more 132 k (contact_frame c code) ∙ ap (drop k) from_numbers)

  key_part : slice 1 32 (contact_frame c code) ≡ c.pub_key
  unfolding contact_frame
  key_part = take-append 32 c.pub_key _ fits.key_size

  type_part : get_or (contact_frame c code) 33 0 ≡ c.type
  type_part = get_or-drop 33 0 (contact_frame c code) 0 ∙ ap (λ f. get_or f 0 0) from_type

  name_part : until_nul (slice 100 32 (contact_frame c code)) ≡ c.name
  name_part =
      ap (λ f. until_nul (take 32 f)) from_name
      ∙ ap until_nul (take-append 32 (c_field 32 31 c.name) numbers (length-c_field c.name))
      ∙ until_nul-c_field c.name fits.name_text fits.name_size

  word_at :
      (k w : ℕ) (rest : Bytes)
      → IsU32 w
      → drop k numbers ≡ u32 w ++ rest
      → get_u32 (contact_frame c code) (132 + k) ≡ w
  word_at k w rest h e = number_at k ∙ ap (λ f. get_u32 f 0) e ∙ get_u32-u32 w rest ∙ mod-eq_of_lt h

  length-contact_frame : length (contact_frame c code) ≡ 148
  length-contact_frame =
      omega (arith, length-drop 132 (contact_frame c code), ap length from_numbers)

  -- The frame of a contact whose fields fit (a key of 32 bytes, a name of at most 31 bytes without
  -- NUL, numbers of 32 bits), read as CMD_ADD_UPDATE_CONTACT reads it, gives the contact back with
  -- the cached secret, but without its path and what was noted of its last advert.
  pub contact_of_frame-contact_frame :
      (env : Ambient) (secret : Str)
      → contact_of_frame env (contact_frame c code) secret ≡ record new_contact {
        pub_key = c.pub_key;
        type = c.type;
        name = c.name;
        last_advert = c.last_advert;
        last_mod = c.last_mod;
        lat = c.lat;
        lon = c.lon;
        secret_hex = secret;
      }
  unfolding contact_of_frame
  contact_of_frame-contact_frame env secret = rw (
    key_part,
    type_part,
    name_part,
    length-contact_frame,
    word_at 0 c.last_advert (u32 c.lat ++ (u32 c.lon ++ u32 c.last_mod)) fits.advert_word refl,
    word_at 4 c.lat (u32 c.lon ++ u32 c.last_mod) fits.lat_word refl,
    word_at 8 c.lon (u32 c.last_mod) fits.lon_word refl,
    word_at 12 c.last_mod [] fits.mod_word refl,
  )
