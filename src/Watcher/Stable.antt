-- ===== src/Watcher/Stable.antt =====
-- The loop of `processFile` that waits until the size of a file stays the same.
pub mod Loop
use goencode.Prelude.{
  ℕ, zero, suc, ◌+◌, ◌&&◌, Bool, ltb, leb, ◌==◌, if◌then◌else◌, Option, none, some,
}
use goencode.Prelude.Int.{ℤ}

abbrev pub stable_needed : ℕ
stable_needed = 3

-- One more than `maxStableWait / stablePoll`, as the deadline is over only after it: when round 361
-- starts, 361 waits of at least five seconds have gone by.
abbrev pub max_rounds : ℕ
max_rounds = 362

-- What the loop meets: whether the deadline has passed at the start of a round, and the size that is
-- found in it, in bytes.
pub record Polls : Type 0 where
  pub late : ℕ → Bool
  pub size : ℕ → Option ℕ

pub data Waited : Type 0 where
  no_fuel gave_up vanished : Waited
  stable : ℕ → Waited

-- Round `i`, with the size of the last round and the number of times that it was found again.
unfoldable pub wait_stable : Polls → ℕ → ℕ → ℕ → ℕ → Waited
wait_stable polls zero i last_size count = no_fuel
wait_stable polls (suc fuel) i last_size count =
    if polls.late i then gave_up else elim (polls.size i) [
      | none ↦ vanished
      | some n ↦
          if n == last_size && leb stable_needed (count + 1)
          then stable n
          else wait_stable polls fuel (i + 1) n (if n == last_size then count + 1 else 0)
    ]
