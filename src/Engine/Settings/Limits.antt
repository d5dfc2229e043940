-- ===== src/Engine/Settings/Limits.antt =====
-- What the settings of a new engine mean for the discovery cycle and for the replies.
use smartmet_engine_sputnik.Engine.Silence.{silent_rounds}
use smartmet_engine_sputnik.Prelude.{
  true, ap, sym, [], as_unsigned, ℕ, zero, suc, ◌+◌, ◌-◌, ◌%◌, ◌^◌, ◌<◌, ◌≡◌, refl, ◌∙◌, Bool,
  false, ℤ, pos, negsuc, List, arith,
}
use smartmet_engine_sputnik.Text.{codes}
use smartmet_engine_sputnik.Platform.{Platform}
use smartmet_engine_sputnik.Spine.{Reactor}
use smartmet_engine_sputnik.Outcome.{Result, ok, err, positive_overflow}
use smartmet_engine_sputnik.Services.Validity.{initial-IsValid}
use smartmet_engine_sputnik.Messages.{cast_int, send_discovery_reply}
use smartmet_engine_sputnik.Engine.Cycle.{targets, IsSound, next, start_service_discovery-next}
use smartmet_engine_sputnik.Engine.{
  sends_all, Sending, Endpoint, endpoints, Frontend, finish_cycle, handle_deadline_timer,
}
use smartmet_engine_sputnik.Engine.Object.{Reading, state_of}
use smartmet_engine_sputnik.Engine.Settings.{
  ConfigBase, items, or_default, settings_of, frontend_of, own_of,
}

module _ (P : Platform) where
  -- The `int` that is read as the largest number of skipped cycles.
  abbrev pub configured_cycles : ConfigBase P.Float → ℤ
  configured_cycles conf =
      or_default (conf.int_param (codes "heartbeat.max_skipped_cycles")) (pos 2)

  -- With a limit of skipped cycles from 0 to 2^31 - 1, or with none configured, and with listeners
  -- that name ports, the frontend of a new engine is sound.
  pub frontend_of-IsSound :
      (conf : ConfigBase P.Float) (port n : ℕ) {ends : List Endpoint}
      → configured_cycles conf ≡ pos n
      → n < 2 ^ 31
      → endpoints P (λ end. true) (items (conf.config_array (codes "backendUdpListeners")))
        ≡ ok ends
      → IsSound P (frontend_of P (settings_of P conf port))
  unfolding frontend_of settings_of
  frontend_of-IsSound conf port n {ends} e h d =
      let same : (frontend_of P (settings_of P conf port)).max_skipped_cycles ≡ n = ground arith in
      record {
        sequence_range = omega arith;
        destinations =
            d
            ∙ sym (ap (λ (o : Result (List Endpoint)). ok (elim o [ ok xs ↦ xs | err x ↦ [] ])) d);
        skipped_range = omega arith;
        max_range = omega (arith, same);
        valid = initial-IsValid P;
      }

  -- A cycle without a response at the limit 2^32 - 1.
  abbrev passed : Frontend P → Frontend P
  passed s = record s { skipped_cycles = (s.skipped_cycles + 1) % 2 ^ 32; received_responses = 0 }

  finish_cycle-passed :
      (r : Reactor) (s : Frontend P)
      → s.max_skipped_cycles ≡ 2 ^ 32 - 1
      → s.received_responses ≡ 0
      → finish_cycle P r s ≡ ok (passed s)
  unfolding finish_cycle
  finish_cycle-passed r s m z = ground arith

  silent_round-passed :
      (sending : Sending) (n : ℕ) (r : Reactor) (s : Frontend P)
      → s.max_skipped_cycles ≡ 2 ^ 32 - 1
      → s.received_responses ≡ 0
      → endpoints P (λ end. true) s.backend_udp_listeners ≡ ok (targets P sends_all s)
      → silent_rounds P sending (suc n) r s ≡ silent_rounds P sending n r (next P (passed s))
  unfolding handle_deadline_timer
  silent_round-passed sending n r s m z d =
      rw (finish_cycle-passed r s m z)
        (rw (start_service_discovery-next P sending (passed s) d) refl)

  -- With a limit of 2^32 - 1, which is what -1 is converted to, rounds without a response never
  -- remove a service, however many there are.
  pub silent_rounds-never :
      (sending : Sending) (n : ℕ) (r : Reactor) (s : Frontend P)
      → s.max_skipped_cycles ≡ as_unsigned 32 (negsuc 0)
      → s.frontend_sequence < 65535
      → s.skipped_cycles < 2 ^ 32
      → s.received_responses ≡ 0
      → endpoints P (λ end. true) s.backend_udp_listeners ≡ ok (targets P sends_all s)
      → silent_rounds P sending n r s
        ≡ ok (record s {
          skipped_cycles = (s.skipped_cycles + n) % 2 ^ 32;
          frontend_sequence = (s.frontend_sequence + n) % 65535;
        })
  silent_rounds-never sending zero r s m q c z d = ground arith
  silent_rounds-never sending (suc n) r s m q c z d =
      silent_round-passed sending n r s m z d
      ∙ silent_rounds-never sending n r (next P (passed s)) m (omega arith) (omega arith) refl d
      ∙ ground arith

  -- With a negative `throttle` in its settings, a backend that is not shutting down cannot reply:
  -- the conversion to `int` throws.
  pub reply-negative_throttle :
      (conf : ConfigBase P.Float) (port n : ℕ) (later : Bool) (reading : Reading P.Float)
      (seqnum : ℤ)
      → or_default (conf.int_param (codes "throttle")) (pos 0) ≡ negsuc n
      → n < 2 ^ 31
      → send_discovery_reply
          (record { at_start = false; later = later })
          (state_of (own_of P (settings_of P conf port)) reading)
          seqnum
        ≡ err positive_overflow
  unfolding send_discovery_reply settings_of own_of state_of cast_int
  reply-negative_throttle conf port n later reading seqnum e h = ground arith
