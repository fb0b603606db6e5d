-- ===== src/Node/Pending.antt =====
-- The lists of what the node of sdr-node/src/node.cpp waits for: a response takes off the first
-- request that it answers, an acknowledgement the first message that it is for.
use meshcore_open_sdr.Shared.{
  Bool, List, Option, [], ap, arith, false, inl, inr, none, refl, some, suc, true, ℕ, ◌++◌, ◌∷◌,
  ◌≡◌,
}
use meshcore_open_sdr.Node.Answers.{take_ack}
use meshcore_open_sdr.Node.Responses.{answers, take_pending}
use meshcore_open_sdr.Node.State.{PendingAck, PendingReq}
use meshcore_open_sdr.Shared.Lists.{All, length, length-append}
use meshcore_open_sdr.Shared.Tests.{Bool-cases, ◌==◌}
use meshcore_open_sdr.Shared.Text.{Bytes}

-- One entry is taken out of a list, the first one that passes the test.
pub record Taken {ℓ} {A : Type ℓ} (test : A → Bool) (xs : List A) (x : A) (rest : List A)
    : Type ℓ where
  pub before : List A
  pub after : List A
  pub whole : xs ≡ before ++ (x ∷ after)
  pub others : rest ≡ before ++ after
  pub passes : test x ≡ true
  pub first : All (λ y. test y ≡ false) before

Taken-here {ℓ} :
    {A : Type ℓ} (test : A → Bool) (x : A) (xs : List A) → test x ≡ true → Taken test (x ∷ xs) x xs
Taken-here test x xs h = record {
  before = [];
  after = xs;
  whole = refl;
  others = refl;
  passes = h;
  first = tt;
}

Taken-later {ℓ} :
    {A : Type ℓ} (test : A → Bool) (y : A) {xs : List A} {x : A} {rest : List A}
    → test y ≡ false
    → Taken test xs x rest
    → Taken test (y ∷ xs) x (y ∷ rest)
Taken-later test y h t = record {
  before = y ∷ t.before;
  after = t.after;
  whole = ap (◌∷◌ y) t.whole;
  others = ap (◌∷◌ y) t.others;
  passes = t.passes;
  first = (h, t.first);
}

-- No entry passes the test, or the first that does is taken out.
pub data Takes {ℓ} {A : Type ℓ} (test : A → Bool) (xs : List A) : Option (A × List A) → Type ℓ where
  nothing : All (λ y. test y ≡ false) xs → Takes test xs none
  taking : {x : A} {rest : List A} → Taken test xs x rest → Takes test xs (some (x, rest))

-- A response is matched to the first request, in the order in which they were sent, that went to
-- its sender and has its tag or is less than a minute old; only that request is taken off.
pub take_pending-Takes :
    (key : Bytes) (tag now : ℕ) (rs : List PendingReq)
    → Takes (answers key tag now) rs (take_pending key tag now rs)
unfolding take_pending
take_pending-Takes key tag now [] = nothing tt
take_pending-Takes key tag now (r ∷ rs) = elim (Bool-cases (answers key tag now r)) [
  | inl e ↦ rw e (taking (Taken-here _ r rs e))
  | inr e ↦ rw e (later (take_pending key tag now rs) (take_pending-Takes key tag now rs) e)
]
  where
    later :
        (o : Option (PendingReq × List PendingReq))
        → Takes (answers key tag now) rs o
        → answers key tag now r ≡ false
        → Takes
            (answers key tag now)
            (r ∷ rs)
            (elim o [ none ↦ none | some (q, qs) ↦ some (q, r ∷ qs) ])
    later none (nothing a) e = nothing (e, a)
    later (some (q, qs)) (taking t) e = taking (Taken-later _ r e t)

-- An acknowledgement is for the first message, in the order of sending, that waits for its value.
pub take_ack-Takes :
    (value : ℕ) (xs : List PendingAck) → Takes (λ a. a.ack == value) xs (take_ack value xs)
unfolding take_ack
take_ack-Takes value [] = nothing tt
take_ack-Takes value (a ∷ rest) = elim (Bool-cases (a.ack == value)) [
  | inl e ↦ rw e (taking (Taken-here _ a rest e))
  | inr e ↦ rw e (later (take_ack value rest) (take_ack-Takes value rest) e)
]
  where
    later :
        (o : Option (PendingAck × List PendingAck))
        → Takes (λ a. a.ack == value) rest o
        → (a.ack == value) ≡ false
        → Takes
            (λ a. a.ack == value)
            (a ∷ rest)
            (elim o [ none ↦ none | some (b, others) ↦ some (b, a ∷ others) ])
    later none (nothing h) e = nothing (e, h)
    later (some (b, others)) (taking t) e = taking (Taken-later _ a e t)

-- The list that an entry is taken out of was longer by one.
pub length-Taken {ℓ} :
    {A : Type ℓ} (test : A → Bool) (xs : List A) (x : A) (rest : List A)
    → Taken test xs x rest
    → length xs ≡ suc (length rest)
length-Taken test xs x rest t = omega (
  arith,
  ap length t.whole,
  ap length t.others,
  length-append t.before (x ∷ t.after),
  length-append t.before t.after,
)
