-- ===== src/Engine/Punctual.antt =====
-- A frontend that receives the replies of a round in this round.
pub mod Paths
use mathlib.Core.Path.{subst}
use smartmet_engine_sputnik.Prelude.{
  ℕ, ◌+◌, ◌<◌, ◌≡◌, sym, ap, ◌∙◌, inl, inr, Bool, [], Option, ltb, Bool-cases, pos, arith,
}
use smartmet_engine_sputnik.Text.{Str}
use smartmet_engine_sputnik.Platform.{Platform, IsRandom}
use smartmet_engine_sputnik.Spine.{Reactor, Request}
use smartmet_engine_sputnik.OrderedMap.Laws.{AllValues}
use smartmet_engine_sputnik.Backend.{BackendService}
use smartmet_engine_sputnik.Outcome.{Result, ok, err, Returns, ◌>>=◌}
use smartmet_engine_sputnik.Messages.{BroadcastMessage, process_reply, service_of}
use smartmet_engine_sputnik.Messages.Validity.{LeavesValid, process_reply-LeavesValid}
use smartmet_engine_sputnik.Messages.Keeping.{Leaves, IsKept, keep-process_reply}
use smartmet_engine_sputnik.Services.Validity.{IsValid, remove_backend-IsValid}
use smartmet_engine_sputnik.Services.Punctual.{
  IsPunctual, ArePunctual, ArePunctual-le, ArePunctual-next, add_service-ArePunctual,
  latest_sequence-ArePunctual, remove_backend-ArePunctual, IsForwarded, get_service-IsForwarded,
}
use smartmet_engine_sputnik.Services.{
  Services, remove_backend, add_backend_info_request, get_service,
}
use smartmet_engine_sputnik.Engine.Cycle.{
  IsSound, finished, finished-IsSound, next-IsSound, next, handle_deadline_timer-After,
}
use smartmet_engine_sputnik.Engine.Reach.{
  keep-connected, keep-alive, Step, read, deadline, answered, connected, chosen, removed, Reach,
  here, further, store, with_services-IsSound, alive_step-IsValid, connected_step-IsValid,
  chosen_step-IsValid,
}
use smartmet_engine_sputnik.Engine.{
  Sending, Frontend, Status, success, operation_aborted, failed, handle_deadline_timer,
  handle_frontend_read, Sent,
}

module _ (P : Platform) where
  -- Every service that is listed is of one of the rounds since the last time that services were
  -- removed, and lists and forwarders are aligned.
  pub record IsOrderly (s : Frontend P) : Type 0 where
    pub sound : IsSound P s
    pub short : s.max_skipped_cycles < 65534
    pub lists : ArePunctual P s.frontend_sequence (s.skipped_cycles + 1) s.services

  pub finished-lists :
      (r : Reactor) (s : Frontend P)
      → IsOrderly s
      → ArePunctual P
          (finished P r s).frontend_sequence
          (finished P r s).skipped_cycles
          (finished P r s).services
  finished-lists r s v =
      let clean =
        latest_sequence-ArePunctual P s.frontend_sequence (s.skipped_cycles + 1) r s.services
          v.sound.sequence_range v.lists in
      elim (Bool-cases (ltb 0 s.received_responses)) [
        | inl e ↦ rw e clean
        | inr e ↦ elim (Bool-cases (ltb s.skipped_cycles s.max_skipped_cycles)) [
          | inl l ↦ rw (e, l) v.lists
          | inr g ↦ rw (e, g) clean
        ]
      ]

  pub finished-short :
      (r : Reactor) (s : Frontend P) → (finished P r s).max_skipped_cycles ≡ s.max_skipped_cycles
  finished-short r s = ground arith

  finished-IsOrderly : (r : Reactor) (s : Frontend P) → IsOrderly s → IsOrderly (finished P r s)
  finished-IsOrderly r s v = record {
    sound = finished-IsSound P r s v.sound;
    short = omega (arith, finished-short r s, v.short);
    lists =
        ArePunctual-le P (finished P r s).frontend_sequence (finished P r s).skipped_cycles
          ((finished P r s).skipped_cycles + 1) (finished P r s).services (omega arith)
          (finished-lists r s v);
  }

  next-IsOrderly :
      (r : Reactor) (s : Frontend P) → IsOrderly s → IsOrderly (next P (finished P r s))
  next-IsOrderly r s v =
      let w = finished-IsSound P r s v.sound in
      record {
        sound = next-IsSound P (finished P r s) w;
        short = omega (arith, finished-short r s, v.short);
        lists =
            ArePunctual-next P (finished P r s).frontend_sequence (finished P r s).skipped_cycles
              (finished P r s).services w.sequence_range
              (omega (arith, w.skipped_range, finished-short r s, v.short)) (finished-lists r s v);
      }

  pub deadline-IsOrderly :
      (status : Status) (r : Reactor) (stop : Bool) (sending : Sending) (s : Frontend P)
      {s' : Frontend P} {sent : Option (Sent P)}
      → IsOrderly s
      → handle_deadline_timer P status r stop sending s ≡ ok (s', sent)
      → IsOrderly s'
  deadline-IsOrderly status r stop sending s v e =
      let ((t, sent'), run, after) =
        handle_deadline_timer-After P status r stop sending s v.sound in
      let w : IsOrderly t = elim after [
        | inl same ↦ subst IsOrderly (sym same) v
        | inr (inl same) ↦ subst IsOrderly (sym same) (finished-IsOrderly r s v)
        | inr (inr same) ↦ subst IsOrderly (sym same) (next-IsOrderly r s v)
      ] in
      subst IsOrderly (ground (arith, e, run)) w

  pub with_services-IsOrderly :
      (s : Frontend P) (services : Services P) (received : ℕ)
      → IsOrderly s
      → IsValid P services
      → ArePunctual P s.frontend_sequence (s.skipped_cycles + 1) services
      → IsOrderly (record s { services = services; received_responses = received })
  with_services-IsOrderly s services received v w a = record {
    sound = with_services-IsSound P s services received v.sound w;
    short = v.short;
    lists = a;
  }

  pub ArePunctual-IsKept :
      (n bound : ℕ) (r : Reactor) (now : ℕ) (message : BroadcastMessage P.Float)
      → n < 65535
      → message.seqnum ≡ pos n
      → IsKept P (ArePunctual P n bound) r now message
  unfolding service_of
  ArePunctual-IsKept n bound r now message h e = record {
    by_service = λ b uri load throttle s known a.
        add_service-ArePunctual P n bound r now b uri load throttle s h
          (ap (λ x. x.sequence_number) known.same ∙ e) a;
    by_request = λ q s a. unfold add_backend_info_request in a;
  }

  pub read-IsOrderly :
      (s : Frontend P) (result : Result (Services P × ℕ)) {s' : Frontend P} {again : Bool}
      → IsOrderly s
      → LeavesValid P result
      → Leaves P (ArePunctual P s.frontend_sequence (s.skipped_cycles + 1)) result
      → (result >>= store P s) ≡ ok (s', again)
      → IsOrderly s'
  read-IsOrderly s (ok (services, received)) v w a e =
      subst IsOrderly (ground (arith, e)) (with_services-IsOrderly s services received v w a)
  read-IsOrderly s (err x) v w a e = absurd (cc)
