-- ===== src/Queue/Manager/Life/Opens.antt =====
-- The loop over the schedule wakes the queue when it becomes allowed to run.
use goencode.Prelude.{
  ℕ, zero, suc, ◌≡◌, refl, Bool, true, false, List, [], ◌∷◌, ◌++◌, length, Option, none, some,
  Bool-cases, inl, inr,
}
use goencode.Queue.Manager.{send_trigger}
use goencode.Queue.Manager.Life.{
  Tick, Ticked, allowed_at, schedule_tick, schedule_rounds, schedule_loop,
}

-- The round with the number `n`, if there is one.
pub round_at : ℕ → List Ticked → Option Ticked
round_at n [] = none
round_at zero (r ∷ rs) = some r
round_at (suc n) (r ∷ rs) = round_at n rs

-- What the round at `b` makes of the manager, with `a` the moment before it: a trigger and an event
-- when the queue becomes allowed to run, an event when it is no longer, and nothing otherwise.
pub record Follows (a b : Tick) (r : Ticked) : Type 0 where
  opens :
      allowed_at a ≡ false
      → allowed_at b ≡ true
      → r ≡ record { manager = send_trigger b.manager; notified = true }
  closes :
      allowed_at a ≡ true
      → allowed_at b ≡ false
      → r ≡ record { manager = b.manager; notified = true }
  stays : allowed_at a ≡ allowed_at b → r ≡ record { manager = b.manager; notified = false }

schedule_tick-Follows : (a b : Tick) → Follows a b (schedule_tick (allowed_at a) b)
unfolding schedule_tick
schedule_tick-Follows a b = record {
  opens = λ x y. rw (x, y) refl;
  closes = λ x y. rw (x, y) refl;
  stays = λ e. elim (Bool-cases (allowed_at b)) [ inl y ↦ rw (e, y) refl | inr n ↦ rw (e, n) refl ];
}

round_at-schedule_rounds :
    (prev : Bool) (xs ys : List Tick) (a b : Tick)
    → round_at (suc (length xs)) (schedule_rounds prev (xs ++ a ∷ b ∷ ys))
      ≡ some (schedule_tick (allowed_at a) b)
unfolding round_at schedule_rounds
round_at-schedule_rounds prev [] ys a b = refl
round_at-schedule_rounds prev (x ∷ xs) ys a b = round_at-schedule_rounds (allowed_at x) xs ys a b

round_at-schedule_loop :
    (xs ys : List Tick) (a b : Tick)
    → round_at (length xs) (schedule_loop (xs ++ a ∷ b ∷ ys))
      ≡ some (schedule_tick (allowed_at a) b)
unfolding round_at schedule_loop schedule_rounds
round_at-schedule_loop [] ys a b = refl
round_at-schedule_loop (x ∷ xs) ys a b = round_at-schedule_rounds (allowed_at x) xs ys a b

-- Whatever the pause, the window and the time are at each moment, the round at a moment sends the
-- trigger and the event if the queue is allowed to run then and was not at the moment before, the
-- event alone if it was and is not any longer, and neither if nothing changed between the two.
pub schedule_loop-allowed_at :
    (xs ys : List Tick) (a b : Tick)
    → (r : Ticked) × (round_at (length xs) (schedule_loop (xs ++ a ∷ b ∷ ys)) ≡ some r)
      × Follows a b r
schedule_loop-allowed_at xs ys a b =
    (schedule_tick (allowed_at a) b, round_at-schedule_loop xs ys a b, schedule_tick-Follows a b)
