-- ===== src/Sentinel.antt =====
-- sputnik/BackendSentinel.h and .cpp: the throttle of one backend. Each method runs under the
-- object's own lock, so a call is one step.
pub mod Throttle
use smartmet_engine_sputnik.Prelude.{ℕ, ◌+◌, ◌%◌, ◌^◌, Bool, true, leb, ◌==◌, if◌then◌else◌}

-- Both are `unsigned int`.
pub record BackendSentinel : Type 0 where
  pub throttle : ℕ
  pub current_throttle : ℕ

unfoldable pub new_sentinel : ℕ → BackendSentinel
new_sentinel the_throttle = record { throttle = the_throttle; current_throttle = 0 }

unfoldable pub set_alive : BackendSentinel → BackendSentinel
set_alive s = record s { current_throttle = 0 }

unfoldable pub get_alive : BackendSentinel → Bool
get_alive s = if s.throttle == 0 then true else leb s.current_throttle s.throttle

unfoldable pub get_current_throttle : BackendSentinel → ℕ
get_current_throttle s = s.current_throttle

unfoldable pub signal_sent_connection : BackendSentinel → BackendSentinel
signal_sent_connection s = record s { current_throttle = (s.current_throttle + 1) % 2 ^ 32 }
