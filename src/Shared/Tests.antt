-- ===== src/Shared/Tests.antt =====
-- Boolean tests on the native numbers, the conditional, and how a proof splits on them.
use meshcore_open_sdr.Shared.{
  Bool, Option, arith, false, inl, inr, none, refl, some, true, ℕ, ◌<◌, ◌↔◌, ◌≡◌, ◌≤◌, ◌⊎◌,
}
use Prim.Native.Nat.{Ordering, compare}

abbrev pub ltb : ℕ → ℕ → Bool
ltb a b = elim (compare a b) [ Ordering.lt ↦ true | _ ↦ false ]

abbrev pub leb : ℕ → ℕ → Bool
leb a b = elim (compare a b) [ Ordering.gt ↦ false | _ ↦ true ]

infix 50 ◌==◌
abbrev pub ◌==◌ : ℕ → ℕ → Bool
a == b = elim (compare a b) [ Ordering.eq ↦ true | _ ↦ false ]

infix 1 if◌then◌else◌
abbrev pub if◌then◌else◌ {ℓ} : {A : Type ℓ} → Bool → A → A → A
if true then x else y = x
if false then x else y = y

pub ltb→lt : (a b : ℕ) → ltb a b ≡ true → a < b
ltb→lt a b h = ground arith

pub lt→ltb : (a b : ℕ) → a < b → ltb a b ≡ true
lt→ltb a b h = ground arith

pub leb→le : (a b : ℕ) → leb a b ≡ true → a ≤ b
leb→le a b h = ground arith

pub ==_iff : (a b : ℕ) → ((a == b) ≡ true) ↔ (a ≡ b)
==_iff a b = ground arith

pub ruleset tests = (arith, ltb→lt, lt→ltb, leb→le)

pub Bool-cases : (b : Bool) → (b ≡ true) ⊎ (b ≡ false)
Bool-cases true = inl refl
Bool-cases false = inr refl

pub Option-cases {ℓ} : {A : Type ℓ} (o : Option A) → (o ≡ none) ⊎ ((a : A) × (o ≡ some a))
Option-cases none = inl refl
Option-cases (some a) = inr (a, refl)

infixl 5 ◌>>=◌
abbrev pub ◌>>=◌ {ℓ κ} : {A : Type ℓ} {B : Type κ} → Option A → (A → Option B) → Option B
none >>= f = none
some a >>= f = f a

-- What holds of both branches holds of the whole.
pub if_elim {ℓ κ} :
    {A : Type ℓ} (P : A → Type κ) (b : Bool) {x y : A} → P x → P y → P (if b then x else y)
if_elim P true h k = h
if_elim P false h k = k

pub option_elim {ℓ κ μ} :
    {A : Type ℓ} {B : Type κ} (P : B → Type μ) (o : Option A) {z : B} {f : A → B}
    → P z
    → ((a : A) → P (f a))
    → P (elim o [ none ↦ z | some a ↦ f a ])
option_elim P none h k = h
option_elim P (some a) h k = k a

-- The same with the equation at hand.
pub option_elim_eq {ℓ κ μ} :
    {A : Type ℓ} {B : Type κ} (P : B → Type μ) (o : Option A) {z : B} {f : A → B}
    → (o ≡ none → P z)
    → ((a : A) → o ≡ some a → P (f a))
    → P (elim o [ none ↦ z | some a ↦ f a ])
option_elim_eq P none h k = h refl
option_elim_eq P (some a) h k = k a refl

-- A call that gives no value, or one of which the predicate holds.
pub data Returns {ℓ κ} {A : Type ℓ} (P : A → Type κ) : Option A → Type (ℓ ⊔ κ) where
  fails : Returns P none
  returns : {a : A} → P a → Returns P (some a)

pub Returns-some {ℓ κ} : {A : Type ℓ} {P : A → Type κ} {a : A} → Returns P (some a) → P a
Returns-some (returns h) = h

pub Returns-bind {ℓ κ μ} :
    {A : Type ℓ} {B : Type κ} {P : B → Type μ} (m : Option A) {f : A → Option B}
    → ((a : A) → Returns P (f a))
    → Returns P (m >>= f)
Returns-bind none h = fails
Returns-bind (some a) h = h a

pub Returns-then {ℓ κ μ ν} :
    {A : Type ℓ} {B : Type κ} {Q : A → Type ν} {P : B → Type μ} (m : Option A) {f : A → Option B}
    → Returns Q m
    → ((a : A) → Q a → Returns P (f a))
    → Returns P (m >>= f)
Returns-then none r h = fails
Returns-then (some a) r h = h a (Returns-some r)
