-- ===== src/Radio/Supervisor.antt =====
-- The supervisor thread of sdr-node/src/radio_sdr.cpp with start, stop and the receivers that it
-- spawns, in any order of their steps. A signal that stop or restartRx sends does nothing by itself:
-- a receiver may end at any time, for that reason or another.
pub mod Receivers
use meshcore_open_sdr.Shared.{
  Bool, List, Option, [], false, none, some, suc, true, ℕ, ◌++◌, ◌∷◌, ◌≡◌, ◌≢◌, ◌⊎◌,
}
use meshcore_open_sdr.Shared.Lists.{All}
use meshcore_open_sdr.Shared.Tests.{if◌then◌else◌}

-- Where superviseLoop stands; `after` is the test of running_ behind the receiver's end, and `rests`
-- counts the naps that are left.
pub data Place : Type 0 where
  not_started at_loop spawning after ended : Place
  forked reading reaping : ℕ → Place
  rests : ℕ → Place

-- Where the caller of stop stands; `waiting` is its waitpid.
pub data Caller : Type 0 where
  outside flagged joining returned : Caller
  waiting : ℕ → Caller

-- `alive` are the receivers that have not ended.
pub record Radio : Type 0 where
  pub running : Bool
  pub place : Place
  pub caller : Caller
  pub rx_pid : Option ℕ
  pub alive : List ℕ

abbrev pub HasEnded : ℕ → Radio → Type 0
HasEnded p r = All (λ q. q ≢ p) r.alive

pub data RadioStep : Radio → Radio → Type 0 where
  -- start
  starts :
      (r : Radio)
      → r.running ≡ false
      → r.place ≡ not_started
      → RadioStep r (record r { running = true; place = at_loop })
  -- superviseLoop
  enters :
      (r : Radio)
      → r.place ≡ at_loop
      → r.running ≡ true
      → RadioStep r (record r { place = spawning })
  leaves :
      (r : Radio) → r.place ≡ at_loop → r.running ≡ false → RadioStep r (record r { place = ended })
  spawns :
      (r : Radio) (p : ℕ)
      → r.place ≡ spawning
      → RadioStep r (record r { place = forked p; alive = p ∷ r.alive })
  spawn_fails : (r : Radio) → r.place ≡ spawning → RadioStep r (record r { place = after })
  stores :
      (r : Radio) (p : ℕ)
      → r.place ≡ forked p
      → RadioStep r (record r { place = reading p; rx_pid = some p })
  -- readPipe returns when it sees that the radio is stopped, or at the end of the pipe, which the
  -- receiver may close before it ends, or at once where fdopen fails.
  sees_stop :
      (r : Radio) (p : ℕ)
      → r.place ≡ reading p
      → r.running ≡ false
      → RadioStep r (record r { place = reaping p })
  sees_end :
      (r : Radio) (p : ℕ) → r.place ≡ reading p → RadioStep r (record r { place = reaping p })
  -- waitpid returns when the receiver has ended.
  reaps :
      (r : Radio) (p : ℕ)
      → r.place ≡ reaping p
      → HasEnded p r
      → RadioStep r (record r { place = after; rx_pid = none })
  goes_on :
      (r : Radio)
      → r.place ≡ after
      → RadioStep r (record r { place = if r.running then rests 50 else at_loop })
  naps :
      (r : Radio) (n : ℕ)
      → r.place ≡ rests (suc n)
      → r.running ≡ true
      → RadioStep r (record r { place = rests n })
  wakes :
      (r : Radio) (n : ℕ)
      → r.place ≡ rests n
      → (n ≡ 0) ⊎ (r.running ≡ false)
      → RadioStep r (record r { place = at_loop })
  -- A receiver ends.
  dies :
      (r : Radio) (front back : List ℕ) (p : ℕ)
      → r.alive ≡ front ++ (p ∷ back)
      → RadioStep r (record r { alive = front ++ back })
  -- stop
  flags :
      (r : Radio)
      → r.caller ≡ outside
      → r.running ≡ true
      → RadioStep r (record r { running = false; caller = flagged })
  kills :
      (r : Radio) (p : ℕ)
      → r.caller ≡ flagged
      → r.rx_pid ≡ some p
      → RadioStep r (record r { caller = waiting p })
  finds_none :
      (r : Radio)
      → r.caller ≡ flagged
      → r.rx_pid ≡ none
      → RadioStep r (record r { caller = joining })
  waited :
      (r : Radio) (p : ℕ)
      → r.caller ≡ waiting p
      → HasEnded p r
      → RadioStep r (record r { caller = joining; rx_pid = none })
  joins :
      (r : Radio)
      → r.caller ≡ joining
      → r.place ≡ ended
      → RadioStep r (record r { caller = returned })

pub data RadioReach (r : Radio) : Radio → Type 0 where
  at_first : RadioReach r r
  and_then : {s t : Radio} → RadioReach r s → RadioStep s t → RadioReach r t

abbrev pub fresh_radio : Radio
fresh_radio = record {
  running = false;
  place = not_started;
  caller = outside;
  rx_pid = none;
  alive = [];
}
