-- ===== src/Pause.antt =====
-- The pause of sputnik/Engine.h and Engine.cpp: `itsPaused` and `itsPauseDeadLine` under the mutex
-- that each of the four methods holds, so a call is one step. A time is a number of microseconds.
pub mod Deadline
use smartmet_engine_sputnik.Prelude.{ℕ, Bool, true, false, Option, none, some, ltb, if◌then◌else◌}

pub record Pause : Type 0 where
  pub paused : Bool
  pub deadline : Option ℕ

unfoldable pub set_pause : Pause → Pause
set_pause p = record { paused = true; deadline = none }

unfoldable pub set_pause_until : ℕ → Pause → Pause
set_pause_until time p = record { paused = true; deadline = some time }

unfoldable pub set_continue : Pause → Pause
set_continue p = record { paused = false; deadline = none }

-- `isPaused` at the time `now`: the first query that finds the deadline expired ends the pause.
unfoldable pub is_paused : ℕ → Pause → Bool × Pause
is_paused now p =
    if p.paused
    then elim p.deadline [
      | none ↦ (true, p)
      | some time ↦
          if ltb now time then (true, p) else (false, record { paused = false; deadline = none })
    ]
    else (false, p)
