-- ===== src/Node/Syncing.antt =====
-- CMD_GET_CONTACTS of sdr-node/src/node.cpp as the app uses it: again with the time stamp of the
-- last answer.
use meshcore_open_sdr.Shared.{
  List, [], ap, arith, false, inl, inr, refl, sym, true, ℕ, ◌++◌, ◌<◌, ◌∙◌, ◌∷◌, ◌≡◌, ◌≢◌, ◌≤◌, ◌⊎◌,
}
use meshcore_open_sdr.Node.Contacts.{contacts_since, get_contacts, most_recent, newer}
use meshcore_open_sdr.Node.State.{Contact, Node}
use meshcore_open_sdr.Radio.Reader.Pairing.{frames}
use meshcore_open_sdr.Shared.Lists.{drop, length, length-append}
use meshcore_open_sdr.Shared.Map.{Map, Values, nat_key, str_key}
use meshcore_open_sdr.Shared.Tests.{Bool-cases, leb, ltb, ltb→lt}
use meshcore_open_sdr.Shared.Text.{Bytes, Str}
use meshcore_open_sdr.Wire.{IsU32, get_u32, u32}

newer_lem :
    (since best : ℕ) (c : Contact)
    → (best ≤ newer since best c)
      × ((c.last_mod ≤ since) ⊎ (c.last_mod ≤ newer since best c))
      × ((newer since best c ≡ best) ⊎ (newer since best c ≡ c.last_mod))
unfolding newer
newer_lem since best c = ground arith

most_recent_best : (since best : ℕ) (m : Map Str Contact) → best ≤ most_recent since best m
unfolding most_recent
most_recent_best since best [] = omega arith
most_recent_best since best ((key, c) ∷ m) =
    omega (arith, (newer_lem since best c).0, most_recent_best since (newer since best c) m)

-- No contact that changed after `since` changed after the time stamp.
most_recent_bound :
    (since best : ℕ) (m : Map Str Contact)
    → Values (λ c. (c.last_mod ≤ since) ⊎ (c.last_mod ≤ most_recent since best m)) m
unfolding most_recent
most_recent_bound since best [] = tt
most_recent_bound since best ((key, c) ∷ m) = (
  ground (arith, (newer_lem since best c).1, most_recent_best since (newer since best c) m),
  most_recent_bound since (newer since best c) m,
)

since_cases :
    (since : ℕ) (key : Str) (c : Contact) (m : Map Str Contact)
    → contacts_since since ((key, c) ∷ m) ≢ []
    → (since < c.last_mod) ⊎ (contacts_since since m ≢ [])
unfolding contacts_since
since_cases since key c m h = elim (Bool-cases (ltb since c.last_mod)) [
  | inl e ↦ inl (ltb→lt since c.last_mod e)
  | inr e ↦ inr (rw e at h)
]

most_recent_above :
    (since best : ℕ) (m : Map Str Contact)
    → contacts_since since m ≢ []
    → since < most_recent since best m
unfolding most_recent
most_recent_above since best [] h = absurd (unfold contacts_since in h refl)
most_recent_above since best ((key, c) ∷ m) h =
    let best' = newer since best c in
    elim (since_cases since key c m h) [
      | inl lt ↦ ground (arith, (newer_lem since best c).1, most_recent_best since best' m)
      | inr h' ↦ most_recent_above since best' m h'
    ]

most_recent-IsU32 :
    (since best : ℕ) (m : Map Str Contact)
    → IsU32 best
    → Values (λ c. IsU32 c.last_mod) m
    → IsU32 (most_recent since best m)
unfolding most_recent
most_recent-IsU32 since best [] h hs = h
most_recent-IsU32 since best ((key, c) ∷ m) h hs =
    most_recent-IsU32 since (newer since best c) m
      (elim (newer_lem since best c).2 [ inl e ↦ rw e h | inr e ↦ rw e hs.0 ]) hs.1

nothing_since :
    (since : ℕ) (m : Map Str Contact)
    → Values (λ c. c.last_mod ≤ since) m
    → (contacts_since since m ≡ []) × (most_recent since 0 m ≡ 0)
unfolding contacts_since most_recent newer
nothing_since since [] h = (refl, refl)
nothing_since since ((key, c) ∷ m) h =
    let e : ltb since c.last_mod ≡ false = ground (arith, h.0) in rw e (nothing_since since m h.1)

bound_all :
    (since r : ℕ) (m : Map Str Contact)
    → since < r
    → Values (λ c. (c.last_mod ≤ since) ⊎ (c.last_mod ≤ r)) m
    → Values (λ c. c.last_mod ≤ r) m
bound_all since r [] lt h = tt
bound_all since r ((key, c) ∷ m) lt h = (ground (arith, h.0), bound_all since r m lt h.1)

get_contacts_since :
    (n : Node) (f : Bytes)
    → 5 ≤ length f
    → (get_contacts n f).replies
      ≡ (2 ∷ u32 (length n.contacts))
        ∷ (contacts_since (get_u32 f 1) n.contacts
            ++ ((4 ∷ u32 (most_recent (get_u32 f 1) 0 n.contacts)) ∷ []))
unfolding get_contacts
get_contacts_since n f h = let e : leb 5 (length f) ≡ true = ground arith in rw e

stamp-get_u32 : (r : ℕ) → IsU32 r → get_u32 (4 ∷ u32 r) 1 ≡ r
unfolding get_u32
stamp-get_u32 r h = omega arith

-- The last of a list that is written with its last behind the rest.
last_of {ℓ} :
    {A : Type ℓ} (xs ys : List A) (x y : A) → xs ++ (x ∷ []) ≡ ys ++ (y ∷ []) → (xs ≡ ys) × (x ≡ y)
last_of [] [] x y e = (refl, cc)
last_of [] (b ∷ ys) x y e = absurd (omega (arith, ap length e, length-append ys (y ∷ [])))
last_of (a ∷ xs) [] x y e = absurd (omega (arith, ap length e, length-append xs (x ∷ [])))
last_of (a ∷ xs) (b ∷ ys) x y e =
    let heads : a ≡ b = cc in
    let tails : xs ++ (x ∷ []) ≡ ys ++ (y ∷ []) = cc in
    let (same, last) = last_of xs ys x y tails in (cc, last)

-- The app's way of asking for news: where CMD_GET_CONTACTS with a time stamp is answered with at
-- least one contact, the time stamp in the last frame of that answer, sent in the next
-- CMD_GET_CONTACTS, gives no contact and the time stamp 0. The times of change are words of 32
-- bits.
pub get_contacts_again :
    (n : Node) (f : Bytes) (frames : List Bytes) (last : Bytes)
    → Values (λ c. IsU32 c.last_mod) n.contacts
    → 5 ≤ length f
    → (get_contacts n f).replies ≡ frames ++ (last ∷ [])
    → 2 ≤ length frames
    → (get_contacts n (4 ∷ drop 1 last)).replies ≡ (2 ∷ u32 (length n.contacts)) ∷ (4 ∷ u32 0) ∷ []
get_contacts_again n f frames last words long answer some_sent =
    let since = get_u32 f 1 in
    let r = most_recent since 0 n.contacts in
    let (frames_are, last_is) =
      last_of frames ((2 ∷ u32 (length n.contacts)) ∷ contacts_since since n.contacts) last
        (4 ∷ u32 r) (sym answer ∙ get_contacts_since n f long) in
    let some_since : contacts_since since n.contacts ≢ [] =
      λ none_sent. omega (arith, some_sent, ap length frames_are, ap length none_sent) in
    let stamp = stamp-get_u32 r (most_recent-IsU32 since 0 n.contacts (omega arith) words) in
    let none_later = nothing_since r n.contacts (
      bound_all since r n.contacts (most_recent_above since 0 n.contacts some_since)
        (most_recent_bound since 0 n.contacts)) in
    rw last_is
      (get_contacts_since n (4 ∷ u32 r) (omega arith) ∙ rw (stamp, none_later.0, none_later.1))
