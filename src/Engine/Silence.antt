-- ===== src/Engine/Silence.antt =====
-- Rounds in which no response comes.
use mathlib.Core.Path.{subst}
use native.Mathlib.Numerals.{add-one}
use smartmet_engine_sputnik.Prelude.{
  ℕ, zero, suc, ◌+◌, ◌%◌, ◌≤◌, ◌≡◌, refl, ap, ◌∙◌, false, pos, arith,
}
use smartmet_engine_sputnik.Platform.{Platform}
use smartmet_engine_sputnik.Spine.{Reactor}
use smartmet_engine_sputnik.Outcome.{Result, ok, ◌>>=◌}
use smartmet_engine_sputnik.Services.{latest_sequence}
use smartmet_engine_sputnik.Engine.{Sending, Frontend, success, handle_deadline_timer}
use smartmet_engine_sputnik.Engine.Cycle.{
  IsSound, finished, skipped, cleaned, finished-IsSound, next, next-IsSound,
  handle_deadline_timer-next,
}

module _ (P : Platform) (sending : Sending) where
  -- `n` rounds in which no response comes.
  abbrev pub silent_rounds : ℕ → Reactor → Frontend P → Result (Frontend P)
  silent_rounds zero r s = ok s
  silent_rounds (suc n) r s =
      handle_deadline_timer P success r false sending s >>= λ (s', sent). silent_rounds n r s'

  -- From a sound state with no response so far: as long as the limit is not passed, rounds without
  -- a response change only the two counters: the services stay as they are, in the round that
  -- reaches the limit too.
  pub silent_rounds-keep :
      (n : ℕ) (r : Reactor) (s : Frontend P)
      → IsSound P s
      → s.received_responses ≡ 0
      → s.skipped_cycles + n ≤ s.max_skipped_cycles
      → silent_rounds n r s
        ≡ ok (record s {
          skipped_cycles = s.skipped_cycles + n;
          frontend_sequence = (s.frontend_sequence + n) % 65535;
        })
  silent_rounds-keep zero r s v q h = ground (arith, v.sequence_range)
  silent_rounds-keep (suc n) r s v q h =
      let e : finished P r s ≡ skipped P s = ground arith in
      let w = next-IsSound P (skipped P s) (subst (IsSound P) e (finished-IsSound P r s v)) in
      rw (handle_deadline_timer-next P r sending s v) (
        ap (λ t. silent_rounds n r (next P t)) e
        ∙ silent_rounds-keep n r (next P (skipped P s)) w refl (omega arith)
        ∙ ground arith)

  silent_rounds-clean_suc :
      (k : ℕ) (r : Reactor) (s : Frontend P)
      → IsSound P s
      → s.received_responses ≡ 0
      → s.skipped_cycles + k ≡ s.max_skipped_cycles
      → silent_rounds (suc k) r s
        ≡ ok (record s {
          services = latest_sequence P r (pos ((s.frontend_sequence + k) % 65535)) s.services;
          skipped_cycles = 0;
          frontend_sequence = (s.frontend_sequence + k + 1) % 65535;
        })
  silent_rounds-clean_suc zero r s v q h =
      let e : finished P r s ≡ cleaned P r s = ground arith in
      let n : (s.frontend_sequence + 0) % 65535 ≡ s.frontend_sequence =
        omega (arith, v.sequence_range) in
      rw (handle_deadline_timer-next P r sending s v)
        (ap (λ t. ok (next P t)) e ∙ ground (arith, n))
  silent_rounds-clean_suc (suc k) r s v q h =
      let e : finished P r s ≡ skipped P s = ground arith in
      let w = next-IsSound P (skipped P s) (subst (IsSound P) e (finished-IsSound P r s v)) in
      let n : ((s.frontend_sequence + 1) % 65535 + k) % 65535
          ≡ (s.frontend_sequence + suc k) % 65535 =
        omega arith in
      rw (handle_deadline_timer-next P r sending s v) (
        ap (λ t. silent_rounds (suc k) r (next P t)) e
        ∙ silent_rounds-clean_suc k r (next P (skipped P s)) w refl (omega arith)
        ∙ ground (arith, n))

  -- From a sound state with no response so far: the round without a response that passes the limit
  -- removes the services that are not of this round, and counts from 0 again.
  pub silent_rounds-clean :
      (k : ℕ) (r : Reactor) (s : Frontend P)
      → IsSound P s
      → s.received_responses ≡ 0
      → s.skipped_cycles + k ≡ s.max_skipped_cycles
      → silent_rounds (k + 1) r s
        ≡ ok (record s {
          services = latest_sequence P r (pos ((s.frontend_sequence + k) % 65535)) s.services;
          skipped_cycles = 0;
          frontend_sequence = (s.frontend_sequence + k + 1) % 65535;
        })
  silent_rounds-clean k r s v q h = rw (add-one k) (silent_rounds-clean_suc k r s v q h)
