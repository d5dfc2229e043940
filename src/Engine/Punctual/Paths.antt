-- ===== src/Engine/Punctual/Paths.antt =====
-- Sequences of events in which each reply is read in its own round.
use mathlib.Core.Path.{subst}
use smartmet_engine_sputnik.Prelude.{ℕ, ◌+◌, ◌<◌, ◌≡◌, sym, ap, ◌∙◌, Bool, [], Option, pos, arith}
use smartmet_engine_sputnik.Text.{Str}
use smartmet_engine_sputnik.Platform.{Platform, IsRandom}
use smartmet_engine_sputnik.Spine.{Reactor, Request}
use smartmet_engine_sputnik.OrderedMap.Laws.{AllValues}
use smartmet_engine_sputnik.Backend.{BackendService}
use smartmet_engine_sputnik.Outcome.{ok, Returns}
use smartmet_engine_sputnik.Messages.{BroadcastMessage, process_reply}
use smartmet_engine_sputnik.Messages.Validity.{process_reply-LeavesValid}
use smartmet_engine_sputnik.Messages.Keeping.{keep-process_reply}
use smartmet_engine_sputnik.Services.Validity.{IsValid, remove_backend-IsValid}
use smartmet_engine_sputnik.Services.Punctual.{
  IsPunctual, ArePunctual, remove_backend-ArePunctual, IsForwarded, get_service-IsForwarded,
}
use smartmet_engine_sputnik.Services.{Services, remove_backend, get_service}
use smartmet_engine_sputnik.Engine.Cycle.{IsSound}
use smartmet_engine_sputnik.Engine.Reach.{
  keep-connected, keep-alive, Step, read, deadline, answered, connected, chosen, removed, Reach,
  here, further, alive_step-IsValid, connected_step-IsValid, chosen_step-IsValid,
}
use smartmet_engine_sputnik.Engine.{
  Frontend, Status, success, operation_aborted, failed, handle_frontend_read,
}
use smartmet_engine_sputnik.Engine.Punctual.{
  IsOrderly, deadline-IsOrderly, with_services-IsOrderly, ArePunctual-IsKept, read-IsOrderly,
}

module _ (P : Platform) where
  module _ (parse : Str → BroadcastMessage P.Float) where
    -- What makes an event punctual: a message that is read has the number of the present round, and
    -- a backend that is removed is removed for every URI.
    unfoldable pub Punctual : {s s' : Frontend P} → Step P parse s s' → Type 0
    Punctual {s} (read status bytes stop r now again e) =
        (parse bytes).seqnum ≡ pos s.frontend_sequence
    Punctual (deadline status r stop sending sent e) = Unit
    Punctual (answered host port status) = Unit
    Punctual (connected host port) = Unit
    Punctual (chosen r request answer services e) = Unit
    Punctual (removed r host port uri services e) = uri ≡ []

    unfoldable pub AllPunctual : {s s' : Frontend P} → Reach P parse s s' → Type 0
    unfolding Punctual
    AllPunctual here = Unit
    AllPunctual (further path step) = AllPunctual path × Punctual step

    read_step-IsOrderly :
        (status : Status) (bytes : Str) (stop : Bool) (r : Reactor) (now : ℕ) (s : Frontend P)
        {s' : Frontend P} {again : Bool}
        → IsOrderly P s
        → (parse bytes).seqnum ≡ pos s.frontend_sequence
        → handle_frontend_read P parse status bytes stop r now s ≡ ok (s', again)
        → IsOrderly P s'
    unfolding handle_frontend_read
    read_step-IsOrderly operation_aborted bytes stop r now s v q e =
        subst (IsOrderly P) (ground (arith, e)) v
    read_step-IsOrderly failed bytes stop r now s v q e = subst (IsOrderly P) (ground (arith, e)) v
    read_step-IsOrderly success bytes stop r now s v q e =
        let n = s.frontend_sequence in
        let bound = s.skipped_cycles + 1 in
        read-IsOrderly P s
          (process_reply P stop r now (parse bytes) (s.services, s.received_responses)) v
          (process_reply-LeavesValid P stop r now (parse bytes) s.received_responses s.services
            v.sound.valid)
          (keep-process_reply P (ArePunctual P n bound) r now (parse bytes)
            (ArePunctual-IsKept P n bound r now (parse bytes) v.sound.sequence_range q) stop
            s.received_responses s.services v.lists)
          e

    module _ (laws : IsRandom P) where
      chosen-lists :
          (n bound : ℕ) (r : Reactor) (request : Request) (s : Services P)
          {answer : Option (BackendService P.Float)} {s' : Services P}
          → IsValid P s
          → ArePunctual P n bound s
          → get_service P r request s ≡ ok (answer, s')
          → ArePunctual P n bound s'
      chosen-lists n bound r request s {s' = s'} v a e =
          let ((answer', t), run, w) = get_service-IsForwarded P laws n bound r request s v a in
          subst (λ (u : Services P). ArePunctual P n bound u) {x = t} {y = s'}
            (ground (arith, e, run)) w.1

      Step-IsOrderly :
          {s s' : Frontend P}
          → IsOrderly P s
          → (step : Step P parse s s') → Punctual step
          → IsOrderly P s'
      unfolding Punctual
      Step-IsOrderly {s} v (read status bytes stop r now again e) q =
          read_step-IsOrderly status bytes stop r now s v q e
      Step-IsOrderly {s} v (deadline status r stop sending sent e) q =
          deadline-IsOrderly P status r stop sending s v e
      Step-IsOrderly {s} v (answered host port status) q =
          with_services-IsOrderly P s _ s.received_responses v
            (alive_step-IsValid P parse host port status s.services v.sound.valid)
            (keep-alive P (ArePunctual P _ _) (λ u m a. a) host port status s.services v.lists)
      Step-IsOrderly {s} v (connected host port) q =
          with_services-IsOrderly P s _ s.received_responses v
            (connected_step-IsValid P parse host port s.services v.sound.valid)
            (keep-connected P (ArePunctual P _ _) (λ u m a. a) host port s.services v.lists)
      Step-IsOrderly {s} v (chosen r request answer services e) q =
          with_services-IsOrderly P s services s.received_responses v
            (chosen_step-IsValid P parse laws r request s.services v.sound.valid e)
            (chosen-lists _ _ r request s.services v.sound.valid v.lists e)
      Step-IsOrderly {s} v (removed r host port uri services e) q =
          with_services-IsOrderly P s services s.received_responses v
            (remove_backend-IsValid P r host port uri s.services v.sound.valid e)
            (remove_backend-ArePunctual P _ _ r host port s.services v.lists
              (ap (λ u. remove_backend P r host port u s.services) (sym q) ∙ e))

      Reach-IsOrderly :
          {s s' : Frontend P}
          → IsOrderly P s
          → (path : Reach P parse s s') → AllPunctual path
          → IsOrderly P s'
      unfolding AllPunctual
      Reach-IsOrderly v here q = v
      Reach-IsOrderly v (further path step) q = Step-IsOrderly (Reach-IsOrderly v path q.0) step q.1

      -- If random draws are in the documented ranges: after any sequence of events at a frontend
      -- that began in a sound state, with no services listed and fewer than 65534 cycles allowed to
      -- pass without a response, in which each message that was read had the number of the round in
      -- which it was read, and backends were removed for every URI, `getService` returns nothing if
      -- no service is listed for the request's prefix, and otherwise a service on the very backend
      -- that the forwarder has chosen.
      pub Reach-IsForwarded :
          (s s' : Frontend P) (r : Reactor) (request : Request)
          → IsSound P s
          → s.services.services_by_uri ≡ []
          → s.max_skipped_cycles < 65534
          → (path : Reach P parse s s') → AllPunctual path
          → Returns
              (get_service P r request s'.services)
              (λ (answer, services). IsForwarded P r request s'.services answer)
      Reach-IsForwarded s s' r request v nil short path q =
          let w : IsOrderly P s = record {
            sound = v;
            short = short;
            lists =
                subst (AllValues (IsPunctual P s.frontend_sequence (s.skipped_cycles + 1)))
                  (sym nil) tt;
          } in
          let w' = Reach-IsOrderly w path q in
          let (out, run, answer) =
            get_service-IsForwarded P laws _ _ r request s'.services w'.sound.valid w'.lists in
          (out, run, answer.0)
