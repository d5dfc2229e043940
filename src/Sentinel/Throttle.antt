-- ===== src/Sentinel/Throttle.antt =====
-- What a client of a sentinel observes after some connections with no answer.
use smartmet_engine_sputnik.Prelude.{ℕ, zero, suc, ◌+◌, ◌^◌, ◌<◌, ◌≡◌, refl, ◌||◌, leb, ◌==◌, arith}
use smartmet_engine_sputnik.Sentinel.{BackendSentinel, set_alive, get_alive, signal_sent_connection}

-- `n` connections are sent and none is answered.
abbrev pub signals : ℕ → BackendSentinel → BackendSentinel
signals zero s = s
signals (suc n) s = signals n (signal_sent_connection s)

signals_fields :
    (n : ℕ) (s : BackendSentinel)
    → s.current_throttle + n < 2 ^ 32
    → ((signals n s).throttle ≡ s.throttle)
      × ((signals n s).current_throttle ≡ s.current_throttle + n)
unfolding signal_sent_connection
signals_fields zero s h = (refl, omega arith)
signals_fields (suc n) s h =
    let ih = signals_fields n (signal_sent_connection s) (ground arith) in
    (ground (arith, ih.0), ground (arith, ih.1))

-- After an answer, a backend with a throttle t that is not 0 counts as alive through t connections
-- without another answer and as dead from the next one on, up to 2^32 - 1 of them. With the
-- throttle 0 it always counts as alive.
pub get_alive-signals :
    (s : BackendSentinel) (n : ℕ)
    → n < 2 ^ 32
    → get_alive (signals n (set_alive s)) ≡ (s.throttle == 0 || leb n s.throttle)
unfolding get_alive set_alive
get_alive-signals s n h =
    let f = signals_fields n (set_alive s) (omega arith) in ground (arith, f.0, f.1)
