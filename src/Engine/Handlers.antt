-- ===== src/Engine/Handlers.antt =====
-- When a backend answers, and what it answers.
use smartmet_engine_sputnik.Prelude.{
  ℕ, ◌^◌, ◌<◌, ◌≡◌, ◌≢◌, refl, Bool, true, false, none, some, Bool-cases, inl, inr, ◌⊎◌, pos, arith,
}
use smartmet_engine_sputnik.Text.{Str}
use smartmet_engine_sputnik.Platform.{Platform}
use smartmet_engine_sputnik.Outcome.{ok, Returns}
use smartmet_engine_sputnik.Messages.{
  service_discovery_request, BroadcastMessage, BackendState, Shutdown, cast_int, discovery_reply,
  process_request,
}
use smartmet_engine_sputnik.Pause.{Pause, is_paused}
use smartmet_engine_sputnik.Engine.{
  Status, success, operation_aborted, failed, silent, answer_request, handle_backend_read,
}

module _ (P : Platform) (parse : Str → BroadcastMessage P.Float) where
  -- Are the port and the throttle limit values of `int`, and the load one of `float`?
  abbrev pub IsPortable : BackendState P.Float → Type 0
  IsPortable b = (b.http_port < 2 ^ 31) × (b.throttle_limit < 2 ^ 31) × (b.load_fits ≡ true)

  -- What lets a backend stay silent.
  abbrev pub IsSilenced : Status → Bool → Bool → Bool → Pause → ℕ → Str → Type 0
  IsSilenced status stop stop' high p now bytes =
      (status ≢ success)
      ⊎ (stop ≡ true)
      ⊎ (stop' ≡ true)
      ⊎ (high ≡ true)
      ⊎ ((is_paused now p).0 ≡ true)
      ⊎ ((parse bytes).message_type ≢ service_discovery_request)

  process_request-other :
      (shutdown : Shutdown) (b : BackendState P.Float) (message : BroadcastMessage P.Float)
      → message.message_type ≢ service_discovery_request
      → process_request shutdown b message ≡ ok none
  unfolding process_request
  process_request-other shutdown b message h = ground arith

  answer_request-silent :
      (bytes : Str) (stop' : Bool) (shutdown : Shutdown) (b : BackendState P.Float) (p : Pause)
      → (stop' ≡ true) ⊎ ((parse bytes).message_type ≢ service_discovery_request)
      → Returns (answer_request P parse bytes stop' shutdown b p) (λ a. a.reply ≡ none)
  unfolding answer_request
  answer_request-silent bytes true shutdown b p h = (_, refl, refl)
  answer_request-silent bytes false shutdown b p h = (
    silent P p true,
    rw (process_request-other shutdown b (parse bytes) (ground (arith, h))) refl,
    refl,
  )

  -- A backend sends nothing, and ends with no exception, if the receive failed, the server is
  -- shutting down, Sputnik is paused, the load is high, or the message is no request.
  pub handle_backend_read-silent :
      (status : Status) (bytes : Str) (stop stop' high : Bool) (shutdown : Shutdown) (now : ℕ)
      (b : BackendState P.Float) (p : Pause)
      → IsSilenced status stop stop' high p now bytes
      → Returns
          (handle_backend_read P parse status bytes stop stop' shutdown high now b p)
          (λ a. a.reply ≡ none)
  unfolding handle_backend_read process_request
  handle_backend_read-silent operation_aborted bytes stop stop' high shutdown now b p h =
      (_, refl, refl)
  handle_backend_read-silent failed bytes stop stop' high shutdown now b p h = (_, refl, refl)
  handle_backend_read-silent success bytes true stop' high shutdown now b p h = (_, refl, refl)
  handle_backend_read-silent success bytes false stop' high shutdown now b p h =
      elim (Bool-cases (is_paused now p).0) [
        | inl e ↦ (silent P (is_paused now p).1 true, rw e refl, refl)
        | inr e ↦ elim (Bool-cases high) [
          | inl e' ↦ (silent P (is_paused now p).1 true, rw (e, e') refl, refl)
          | inr e' ↦
              let (a, run, quiet) =
                answer_request-silent bytes stop' shutdown b (is_paused now p).1
                  (ground (arith, h, e, e')) in
              (a, rw (e, e') run, quiet)
        ]
      ]

  -- A backend whose port and throttle fit an `int` and whose load fits a `float`, which is not shutting down, paused or under
  -- high load, answers a request with the message of `sendDiscoveryReply` for the number of the
  -- request, and listens on.
  pub handle_backend_read-reply :
      (bytes : Str) (now : ℕ) (b : BackendState P.Float) (p : Pause)
      → IsPortable b
      → (is_paused now p).0 ≡ false
      → (parse bytes).message_type ≡ service_discovery_request
      → handle_backend_read P parse success bytes false false
          (record { at_start = false; later = false })
          false
          now
          b
          p
        ≡ ok (record {
          pause = (is_paused now p).1;
          reply =
              some
                (discovery_reply b (parse bytes).seqnum (pos b.http_port) (pos b.throttle_limit));
          listening = true;
        })
  unfolding handle_backend_read process_request cast_int
  handle_backend_read-reply bytes now b p h q t = ground arith
