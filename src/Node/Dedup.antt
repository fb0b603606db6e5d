-- ===== src/Node/Dedup.antt =====
-- seenBefore of sdr-node/src/node.cpp against what it is for: a payload is a duplicate if it was
-- noted within the last 600 seconds, and the sweep of old entries is never noticed.
use meshcore_open_sdr.Shared.{Option, arith, inl, inr, none, refl, some, ℕ, ◌+◌, ◌∙◌, ◌≡◌, ◌≤◌}
use meshcore_open_sdr.Node.Queues.{is_recent, is_stale, seen_before, sweep, window}
use meshcore_open_sdr.Node.State.{Node}
use meshcore_open_sdr.Shared.Lists.{length}
use meshcore_open_sdr.Shared.Map.{
  IsSorted, Map, drop_old, erase_if-IsSorted, find, find-erase_if, find-insert, insert-IsSorted,
  nat_key, str_key,
}
use meshcore_open_sdr.Shared.Tests.{Bool-cases, if◌then◌else◌, ltb}
use meshcore_open_sdr.Shared.Text.{Str, str_eq}

is_recent-drop_old :
    (now later : ℕ) (o : Option ℕ)
    → now ≤ later
    → is_recent later (drop_old (is_stale now) o) ≡ is_recent later o
unfolding drop_old
is_recent-drop_old now later none h = refl
is_recent-drop_old now later (some at) h = ground arith

find-sweep :
    (now later : ℕ) (seen : Map Str ℕ) (q : Str)
    → IsSorted seen
    → now ≤ later
    → is_recent later (find q (sweep now seen)) ≡ is_recent later (find q seen)
unfolding sweep
find-sweep now later seen q s h = elim (Bool-cases (ltb 4096 (length seen))) [
  | inl e ↦ rw (e, find-erase_if (is_stale now) q seen s) (is_recent-drop_old now later _ h)
  | inr e ↦ rw e
]

-- What `seenBefore` says of the payload, and what a later question about any payload will hear:
-- a duplicate changes nothing, and any other payload is noted with the time, the rest unchanged.
pub seen_before_refines :
    (p q : Str) (now later : ℕ) (n : Node)
    → IsSorted n.seen
    → now ≤ later
    → ((seen_before p now n).0 ≡ is_recent now (find p n.seen))
      × (is_recent later (find q (seen_before p now n).1.seen) ≡ (
          if is_recent now (find p n.seen)
          then is_recent later (find q n.seen)
          else if str_eq p q
          then ltb later (now + window)
          else is_recent later (find q n.seen)))
unfolding seen_before
seen_before_refines p q now later n s h = elim (Bool-cases (is_recent now (find p n.seen))) [
  | inl e ↦ rw e (refl, refl)
  | inr e ↦ rw e (
    refl,
    find-sweep now later _ q (insert-IsSorted p now n.seen s) h
        ∙ rw (find-insert p q now n.seen) (ground arith),
  )
]

pub sweep-IsSorted : (now : ℕ) (seen : Map Str ℕ) → IsSorted seen → IsSorted (sweep now seen)
unfolding sweep
sweep-IsSorted now seen s = ground (arith, erase_if-IsSorted (is_stale now) seen s)
