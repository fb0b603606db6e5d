-- ===== src/Shared/Map.antt =====
-- `std::map`: an association list in the order of the keys, with the operations that the code uses.
use meshcore_open_sdr.Shared.{
  Bool, List, Option, [], arith, false, none, refl, some, true, ℕ, ◌++◌, ◌+◌, ◌↔◌, ◌∷◌, ◌≡◌, ◌≢◌,
  ◌≤◌,
}
use meshcore_open_sdr.Shared.Lists.{All, length}
use meshcore_open_sdr.Shared.Tests.{==_iff, if◌then◌else◌, ltb, ◌==◌}
use meshcore_open_sdr.Shared.Text.{
  Str, str_eq, str_eq_iff, str_lt, str_lt_irrefl, str_lt_total, str_lt_trans,
}

-- What `std::map` asks of a key.
pub record Key {ℓ} (K : Type ℓ) : Type ℓ where
  pub eqb : K → K → Bool
  pub less : K → K → Bool
  pub eqb_iff : (a b : K) → (eqb a b ≡ true) ↔ (a ≡ b)
  pub less_irrefl : (a : K) → less a a ≡ false
  pub less_trans : (a b c : K) → less a b ≡ true → less b c ≡ true → less a c ≡ true
  pub less_total : (a b : K) → eqb a b ≡ false → less a b ≡ false → less b a ≡ true

instance abbrev pub str_key : Key Str
str_key = record {
  eqb = str_eq;
  less = str_lt;
  eqb_iff = str_eq_iff;
  less_irrefl = str_lt_irrefl;
  less_trans = str_lt_trans;
  less_total = str_lt_total;
}

abbrev pub nat_eqb : ℕ → ℕ → Bool
nat_eqb a b = a == b

pub ltb_irrefl : (a : ℕ) → ltb a a ≡ false
ltb_irrefl a = ground arith

pub ltb_trans : (a b c : ℕ) → ltb a b ≡ true → ltb b c ≡ true → ltb a c ≡ true
ltb_trans a b c h k = ground arith

pub ltb_total : (a b : ℕ) → nat_eqb a b ≡ false → ltb a b ≡ false → ltb b a ≡ true
ltb_total a b h k = ground arith

instance abbrev pub nat_key : Key ℕ
nat_key = record {
  eqb = nat_eqb;
  less = ltb;
  eqb_iff = ==_iff;
  less_irrefl = ltb_irrefl;
  less_trans = ltb_trans;
  less_total = ltb_total;
}

abbrev pub Map {ℓ κ} : Type ℓ → Type κ → Type (ℓ ⊔ κ)
Map K V = List (K × V)

unfoldable pub drop_old {κ} : {V : Type κ} → (V → Bool) → Option V → Option V
drop_old old none = none
drop_old old (some v) = if old v then none else some v

module _ {ℓ κ} {K : Type ℓ} {V : Type κ} ⦃key : Key K⦄ where
  unfoldable pub find : K → Map K V → Option V
  find k [] = none
  find k ((j, v) ∷ m) = if key.eqb j k then some v else find k m

  -- `m[k] = v`
  unfoldable pub insert : K → V → Map K V → Map K V
  insert k v [] = (k, v) ∷ []
  insert k v ((j, w) ∷ m) =
      if key.eqb j k
      then (k, v) ∷ m
      else if key.less k j
      then (k, v) ∷ (j, w) ∷ m
      else (j, w) ∷ insert k v m

  unfoldable pub erase : K → Map K V → Map K V
  erase k [] = []
  erase k ((j, v) ∷ m) = let rest = erase k m in if key.eqb j k then rest else (j, v) ∷ rest

  -- The loop that erases the entries whose value passes a test.
  unfoldable pub erase_if : (V → Bool) → Map K V → Map K V
  erase_if old [] = []
  erase_if old ((j, v) ∷ m) = let rest = erase_if old m in if old v then rest else (j, v) ∷ rest

  pub find-insert :
      (k j : K) (v : V) (m : Map K V)
      → find j (insert k v m) ≡ (if key.eqb k j then some v else find j m)
  unfolding find insert
  find-insert k j v [] = refl
  find-insert k j v ((i, w) ∷ m) =
      ground (arith, key.eqb_iff k j, key.eqb_iff i k, key.eqb_iff i j, find-insert k j v m)

  pub find-insert_self : (k : K) (v : V) (m : Map K V) → find k (insert k v m) ≡ some v
  find-insert_self k v m = ground (arith, find-insert k k v m, key.eqb_iff k k)

  pub find-erase :
      (k j : K) (m : Map K V) → find j (erase k m) ≡ (if key.eqb k j then none else find j m)
  unfolding find erase
  find-erase k j [] = ground arith
  find-erase k j ((i, w) ∷ m) =
      ground (arith, key.eqb_iff k j, key.eqb_iff i k, key.eqb_iff i j, find-erase k j m)

  pub find-insert_other : (k j : K) (v : V) (m : Map K V) → k ≢ j → find j (insert k v m) ≡ find j m
  find-insert_other k j v m h = ground (arith, find-insert k j v m, key.eqb_iff k j)

  pub find-erase_self : (k : K) (m : Map K V) → find k (erase k m) ≡ none
  find-erase_self k m = ground (arith, find-erase k k m, key.eqb_iff k k)

  pub find-erase_other : (k j : K) (m : Map K V) → k ≢ j → find j (erase k m) ≡ find j m
  find-erase_other k j m h = ground (arith, find-erase k j m, key.eqb_iff k j)

  pub length-insert : (k : K) (v : V) (m : Map K V) → length (insert k v m) ≤ length m + 1
  unfolding insert
  length-insert k v [] = omega arith
  length-insert k v ((i, w) ∷ m) = ground (arith, length-insert k v m)

  -- What holds of every value in the map.
  abbrev pub Values {μ} : (V → Type μ) → Map K V → Type μ
  Values P = All (λ e. P e.1)

  pub insert-Values {μ} :
      (P : V → Type μ) (k : K) (v : V) (m : Map K V) → P v → Values P m → Values P (insert k v m)
  unfolding insert
  insert-Values P k v [] h hs = (h, tt)
  insert-Values P k v ((i, w) ∷ m) h hs = ground (arith, insert-Values P k v m h hs.1)

  -- The keys rise along the map, so that no key stands twice.
  abbrev pub IsAbove : K → Map K V → Type 0
  IsAbove k = All (λ e. key.less k e.0 ≡ true)

  abbrev pub IsSorted : Map K V → Type 0
  IsSorted [] = Unit {0}
  IsSorted ((k, v) ∷ m) = IsAbove k m × IsSorted m

  IsAbove-mono : (j k : K) (m : Map K V) → key.less j k ≡ true → IsAbove k m → IsAbove j m
  IsAbove-mono j k [] h a = tt
  IsAbove-mono j k ((i, v) ∷ m) h a = (key.less_trans j k i h a.0, IsAbove-mono j k m h a.1)

  find_above : (k : K) (m : Map K V) → IsAbove k m → find k m ≡ none
  unfolding find
  find_above k [] a = refl
  find_above k ((i, v) ∷ m) a =
      ground (arith, find_above k m a.1, key.eqb_iff i k, key.less_irrefl k)

  insert-IsAbove :
      (j k : K) (v : V) (m : Map K V) → key.less j k ≡ true → IsAbove j m → IsAbove j (insert k v m)
  unfolding insert
  insert-IsAbove j k v [] h a = (h, tt)
  insert-IsAbove j k v ((i, w) ∷ m) h a = ground (arith, insert-IsAbove j k v m h a.1)

  pub insert-IsSorted : (k : K) (v : V) (m : Map K V) → IsSorted m → IsSorted (insert k v m)
  unfolding insert
  insert-IsSorted k v [] s = (tt, tt)
  insert-IsSorted k v ((i, w) ∷ m) s = ground (
    arith,
    key.eqb_iff i k,
    key.less_total k i,
    key.eqb_iff k i,
    IsAbove-mono k i m,
    insert-IsAbove i k v m,
    insert-IsSorted k v m s.1,
  )

  erase-IsAbove : (j k : K) (m : Map K V) → IsAbove j m → IsAbove j (erase k m)
  unfolding erase
  erase-IsAbove j k [] a = tt
  erase-IsAbove j k ((i, w) ∷ m) a = ground (arith, erase-IsAbove j k m a.1)

  pub erase-IsSorted : (k : K) (m : Map K V) → IsSorted m → IsSorted (erase k m)
  unfolding erase
  erase-IsSorted k [] s = tt
  erase-IsSorted k ((i, w) ∷ m) s = ground (arith, erase-IsAbove i k m s.0, erase-IsSorted k m s.1)

  erase_if-IsAbove :
      (old : V → Bool) (j : K) (m : Map K V) → IsAbove j m → IsAbove j (erase_if old m)
  unfolding erase_if
  erase_if-IsAbove old j [] a = tt
  erase_if-IsAbove old j ((i, w) ∷ m) a = ground (arith, erase_if-IsAbove old j m a.1)

  pub erase_if-IsSorted : (old : V → Bool) (m : Map K V) → IsSorted m → IsSorted (erase_if old m)
  unfolding erase_if
  erase_if-IsSorted old [] s = tt
  erase_if-IsSorted old ((i, w) ∷ m) s =
      ground (arith, erase_if-IsAbove old i m s.0, erase_if-IsSorted old m s.1)

  -- A sweep forgets the entries that it is meant to, and no others.
  pub find-erase_if :
      (old : V → Bool) (k : K) (m : Map K V)
      → IsSorted m
      → find k (erase_if old m) ≡ drop_old old (find k m)
  unfolding find erase_if drop_old
  find-erase_if old k [] s = refl
  find-erase_if old k ((i, w) ∷ m) s =
      ground (arith, key.eqb_iff i k, find_above i m s.0, find-erase_if old k m s.1)

  pub length-erase : (k : K) (m : Map K V) → length (erase k m) ≤ length m
  unfolding erase
  length-erase k [] = omega arith
  length-erase k ((i, w) ∷ m) = ground (arith, length-erase k m)

  -- An entry whose key is above all others goes to the end.
  pub insert_last :
      (k : K) (v : V) (m : Map K V)
      → All (λ e. key.less e.0 k ≡ true) m
      → insert k v m ≡ m ++ ((k, v) ∷ [])
  unfolding insert
  insert_last k v [] h = refl
  insert_last k v ((j, w) ∷ m) h = ground (
    arith,
    key.eqb_iff j k,
    key.less_irrefl k,
    key.less_irrefl j,
    key.less_trans k j k,
    insert_last k v m h.1,
  )
