-- ===== src/Radio/Supervisor/Receivers.antt =====
-- How many receivers the supervisor of sdr-node/src/radio_sdr.cpp keeps, and that none outlives the
-- radio.
use meshcore_open_sdr.Shared.{
  List, [], ap, arith, inl, inr, refl, sym, ℕ, ◌++◌, ◌∷◌, ◌≡◌, ◌≢◌, ◌≤◌, ◌⊎◌,
}
use meshcore_open_sdr.Radio.Supervisor.{
  Caller, Place, Radio, RadioReach, RadioStep, after, and_then, at_first, at_loop, dies, ended,
  enters, finds_none, flagged, flags, forked, fresh_radio, goes_on, joining, joins, kills, leaves,
  naps, not_started, outside, reading, reaping, reaps, rests, returned, sees_end, sees_stop,
  spawn_fails, spawning, spawns, starts, stores, waited, waiting, wakes,
}
use meshcore_open_sdr.Shared.Lists.{All, length, length-append}
use mathlib.Core.Path.{subst}

-- The receiver that the supervisor is responsible for is the only one that can be alive.
abbrev Owns : Place → List ℕ → Type 0
Owns (forked p) alive = (alive ≡ []) ⊎ (alive ≡ p ∷ [])
Owns (reading p) alive = (alive ≡ []) ⊎ (alive ≡ p ∷ [])
Owns (reaping p) alive = (alive ≡ []) ⊎ (alive ≡ p ∷ [])
Owns _ alive = alive ≡ []

abbrev HasStopped : Caller → Place → Type 0
HasStopped returned place = place ≡ ended
HasStopped _ place = Unit {0}

record IsOrderly (r : Radio) : Type 0 where
  owns : Owns r.place r.alive
  stopped : HasStopped r.caller r.place

fresh_radio-IsOrderly : IsOrderly fresh_radio
fresh_radio-IsOrderly = record { owns = refl; stopped = tt }

-- Only a supervisor that has not ended moves.
moved :
    (c : Caller) {place : Place} (place' : Place)
    → place ≢ ended
    → HasStopped c place
    → HasStopped c place'
moved returned p ne h = absurd (ne h)
moved outside p ne h = tt
moved flagged p ne h = tt
moved joining p ne h = tt
moved (waiting q) p ne h = tt

nil_of_dead :
    (p : ℕ) (alive : List ℕ) → (alive ≡ []) ⊎ (alive ≡ p ∷ []) → All (λ q. q ≢ p) alive → alive ≡ []
nil_of_dead p alive (inl e) h = e
nil_of_dead p alive (inr e) h = absurd ((subst (All (λ q. q ≢ p)) e h).0 refl)

-- A list of at most one receiver from which one is taken.
removed :
    (p q : ℕ) (front back : List ℕ)
    → (front ++ (q ∷ back) ≡ []) ⊎ (front ++ (q ∷ back) ≡ p ∷ [])
    → front ++ back ≡ []
removed p q [] [] h = refl
removed p q [] (x ∷ back) (inl e) = absurd (omega (arith, ap length e))
removed p q [] (x ∷ back) (inr e) = absurd (omega (arith, ap length e))
removed p q (x ∷ front) back (inl e) = absurd (omega (arith, ap length e))
removed p q (x ∷ front) back (inr e) =
    absurd (omega (arith, ap length e, length-append front (q ∷ back)))

Owns-at_most_one :
    (place : Place) (alive : List ℕ)
    → Owns place alive
    → (p : ℕ) × ((alive ≡ []) ⊎ (alive ≡ p ∷ []))
Owns-at_most_one (forked p) alive h = (p, h)
Owns-at_most_one (reading p) alive h = (p, h)
Owns-at_most_one (reaping p) alive h = (p, h)
Owns-at_most_one not_started alive h = (0, inl h)
Owns-at_most_one at_loop alive h = (0, inl h)
Owns-at_most_one spawning alive h = (0, inl h)
Owns-at_most_one after alive h = (0, inl h)
Owns-at_most_one ended alive h = (0, inl h)
Owns-at_most_one (rests n) alive h = (0, inl h)

Owns-nil : (place : Place) (alive : List ℕ) → alive ≡ [] → Owns place alive
Owns-nil (forked p) alive h = inl h
Owns-nil (reading p) alive h = inl h
Owns-nil (reaping p) alive h = inl h
Owns-nil not_started alive h = h
Owns-nil at_loop alive h = h
Owns-nil spawning alive h = h
Owns-nil after alive h = h
Owns-nil ended alive h = h
Owns-nil (rests n) alive h = h

-- A step of the supervisor from one place to another, with no receiver left or the same one.
step_to :
    (r s : Radio)
    → IsOrderly r
    → r.place ≢ ended
    → s.caller ≡ r.caller
    → Owns s.place s.alive
    → IsOrderly s
step_to r s h ne same o = record {
  owns = o;
  stopped = subst (λ c. HasStopped c s.place) (sym same) (moved r.caller s.place ne h.stopped);
}

Step-IsOrderly : {r s : Radio} → RadioStep r s → IsOrderly r → IsOrderly s
Step-IsOrderly (starts r f e) h =
    step_to r _ h (λ k. cc) refl (subst (λ l. Owns l r.alive) e h.owns)
Step-IsOrderly (enters r e f) h =
    step_to r _ h (λ k. cc) refl (subst (λ l. Owns l r.alive) e h.owns)
Step-IsOrderly (leaves r e f) h =
    step_to r _ h (λ k. cc) refl (subst (λ l. Owns l r.alive) e h.owns)
Step-IsOrderly (spawns r p e) h =
    let none_alive : r.alive ≡ [] = subst (λ l. Owns l r.alive) e h.owns in
    step_to r _ h (λ k. cc) refl (inr (ap (◌∷◌ p) none_alive))
Step-IsOrderly (spawn_fails r e) h =
    step_to r _ h (λ k. cc) refl (subst (λ l. Owns l r.alive) e h.owns)
Step-IsOrderly (stores r p e) h =
    step_to r _ h (λ k. cc) refl (subst (λ l. Owns l r.alive) e h.owns)
Step-IsOrderly (sees_stop r p e f) h =
    step_to r _ h (λ k. cc) refl (subst (λ l. Owns l r.alive) e h.owns)
Step-IsOrderly (sees_end r p e) h =
    step_to r _ h (λ k. cc) refl (subst (λ l. Owns l r.alive) e h.owns)
Step-IsOrderly (reaps r p e n) h =
    step_to r _ h (λ k. cc) refl (nil_of_dead p r.alive (subst (λ l. Owns l r.alive) e h.owns) n)
Step-IsOrderly (goes_on r e) h =
    step_to r _ h (λ k. cc) refl (Owns-nil _ r.alive (subst (λ l. Owns l r.alive) e h.owns))
Step-IsOrderly (naps r n e f) h =
    step_to r _ h (λ k. cc) refl (subst (λ l. Owns l r.alive) e h.owns)
Step-IsOrderly (wakes r n e f) h =
    step_to r _ h (λ k. cc) refl (subst (λ l. Owns l r.alive) e h.owns)
Step-IsOrderly (dies r front back p e) h =
    let (q, one) = Owns-at_most_one r.place r.alive h.owns in
    let gone : front ++ back ≡ [] =
      removed q p front back (subst (λ xs. (xs ≡ []) ⊎ (xs ≡ q ∷ [])) e one) in
    record { owns = Owns-nil r.place (front ++ back) gone; stopped = h.stopped }
Step-IsOrderly (flags r e f) h = record { owns = h.owns; stopped = tt }
Step-IsOrderly (kills r p e f) h = record { owns = h.owns; stopped = tt }
Step-IsOrderly (finds_none r e f) h = record { owns = h.owns; stopped = tt }
Step-IsOrderly (waited r p e n) h = record { owns = h.owns; stopped = tt }
Step-IsOrderly (joins r e f) h = record { owns = h.owns; stopped = f }

Reach-IsOrderly : {r : Radio} → RadioReach fresh_radio r → IsOrderly r
Reach-IsOrderly at_first = fresh_radio-IsOrderly
Reach-IsOrderly (and_then reach step) = Step-IsOrderly step (Reach-IsOrderly reach)

length-owned : (p : ℕ) (alive : List ℕ) → (alive ≡ []) ⊎ (alive ≡ p ∷ []) → length alive ≤ 1
length-owned p alive (inl e) = omega (arith, ap length e)
length-owned p alive (inr e) = omega (arith, ap length e)

-- However the steps of the supervisor, the receivers and stop follow one another, at most one
-- receiver is alive at a time, and none is once stop has returned.
pub Reach-receivers :
    (r : Radio)
    → RadioReach fresh_radio r
    → (length r.alive ≤ 1) × (r.caller ≡ returned → r.alive ≡ [])
Reach-receivers r reach =
    let h = Reach-IsOrderly reach in
    let (p, one) = Owns-at_most_one r.place r.alive h.owns in
    (
      length-owned p r.alive one,
      λ e.
          let at_end : r.place ≡ ended = subst (λ c. HasStopped c r.place) e h.stopped in
          subst (λ l. Owns l r.alive) at_end h.owns,
    )
