-- ===== src/Cluster/Steps.antt =====
-- What the events at a frontend keep of the services that it lists.
use mathlib.Core.List.{Memᴰ}
use mathlib.Core.Path.{subst}
use smartmet_engine_sputnik.Prelude.{
  ℕ, ◌≡◌, sym, inl, inr, Bool, List, Option, Bool-cases, ltb, pos, arith,
}
use smartmet_engine_sputnik.Text.{Str}
use smartmet_engine_sputnik.Platform.{Platform}
use smartmet_engine_sputnik.Spine.{Reactor}
use smartmet_engine_sputnik.Outcome.{Result, ok, err, ◌>>=◌}
use smartmet_engine_sputnik.Backend.{BackendService}
use smartmet_engine_sputnik.Services.{Services, add_backend_info_request}
use smartmet_engine_sputnik.Services.Listed.{
  Lists, add_service-Lists, latest_sequence-Lists, remove_backend-Lists, get_service-Lists,
}
use smartmet_engine_sputnik.Messages.{BroadcastMessage, process_reply}
use smartmet_engine_sputnik.Messages.Keeping.{IsAnnounced, IsKept, Leaves, keep-process_reply}
use smartmet_engine_sputnik.Engine.Cycle.{IsSound, finished, handle_deadline_timer-After}
use smartmet_engine_sputnik.Engine.Reach.{
  keep-connected, keep-alive, Step, read, deadline, answered, connected, chosen, removed, store,
}
use smartmet_engine_sputnik.Engine.{
  Sending, Frontend, Status, success, operation_aborted, failed, Sent, handle_deadline_timer,
  handle_frontend_read,
}
use smartmet_engine_sputnik.Cluster.{received, IsDelivered}

module _ (P : Platform) where
  module _ (O : Str → BackendService P.Float → Type 0) where
    finished-Lists :
        (r : Reactor) (s : Frontend P) → Lists P O s.services → Lists P O (finished P r s).services
    finished-Lists r s a =
        let clean = latest_sequence-Lists P O r (pos s.frontend_sequence) s.services a in
        elim (Bool-cases (ltb 0 s.received_responses)) [
          | inl e ↦ rw e clean
          | inr e ↦ elim (Bool-cases (ltb s.skipped_cycles s.max_skipped_cycles)) [
            | inl l ↦ rw (e, l) a
            | inr g ↦ rw (e, g) clean
          ]
        ]

    deadline-Lists :
        (status : Status) (r : Reactor) (stop : Bool) (sending : Sending) (s : Frontend P)
        {s' : Frontend P} {sent : Option (Sent P)}
        → IsSound P s
        → handle_deadline_timer P status r stop sending s ≡ ok (s', sent)
        → Lists P O s.services
        → Lists P O s'.services
    deadline-Lists status r stop sending s {s' = s'} v e a =
        let ((t, sent'), run, after) = handle_deadline_timer-After P status r stop sending s v in
        let same : s' ≡ t = ground (arith, e, run) in
        subst (λ (u : Frontend P). Lists P O u.services) (sym same)
          (elim after [
            | inl q ↦ subst (λ (u : Frontend P). Lists P O u.services) (sym q) a
            | inr (inl q) ↦
                subst (λ (u : Frontend P). Lists P O u.services) (sym q) (finished-Lists r s a)
            | inr (inr q) ↦
                subst (λ (u : Frontend P). Lists P O u.services) (sym q) (finished-Lists r s a)
          ])

    read-Lists :
        (s : Frontend P) (result : Result (Services P × ℕ)) {s' : Frontend P} {again : Bool}
        → Leaves P (Lists P O) result
        → (result >>= store P s) ≡ ok (s', again)
        → Lists P O s'.services
    read-Lists s (ok (services, received)) {s' = s'} a e =
        subst (λ (u : Frontend P). Lists P O u.services)
          {x = record s { services = services; received_responses = received }} {y = s'}
          (ground (arith, e)) a
    read-Lists s (err x) a e = absurd (cc)

    IsAnnounced-IsKept :
        (r : Reactor) (now : ℕ) (message : BroadcastMessage P.Float)
        → ((b : BackendService P.Float) (uri : Str) → IsAnnounced P message b uri → O uri b)
        → IsKept P (Lists P O) r now message
    IsAnnounced-IsKept r now message h = record {
      by_service = λ b uri load throttle s known a.
          add_service-Lists P O r now b uri load throttle s (h b uri known) a;
      by_request = λ q s a. unfold add_backend_info_request in a;
    }

  module _ (serialize : BroadcastMessage P.Float → Str)
      (parse : Str → BroadcastMessage P.Float) where
    pub Step-Lists :
        (O : Str → BackendService P.Float → Type 0) (replies : List Str) {s s' : Frontend P}
        → ((datagram : Str)
            → Memᴰ datagram replies
            → (b : BackendService P.Float) (uri : Str)
            → IsAnnounced P (parse (received datagram)) b uri
            → O uri b)
        → IsSound P s
        → (step : Step P parse s s') → IsDelivered P serialize parse replies step
        → Lists P O s.services
        → Lists P O s'.services
    unfolding IsDelivered handle_frontend_read
    Step-Lists O replies {s = s} h v (read success bytes stop r now again e) d a =
        read-Lists O s (process_reply P stop r now (parse bytes) (s.services, s.received_responses))
          (keep-process_reply P (Lists P O) r now (parse bytes)
            (IsAnnounced-IsKept O r now (parse bytes) (λ b uri announced.
              h d.0 d.1 b uri (subst (λ (x : Str). IsAnnounced P (parse x) b uri) d.2 announced)))
            stop s.received_responses s.services a)
          e
    Step-Lists O replies {s = s} {s' = s'} h v (read operation_aborted bytes stop r now again e) d
          a =
        subst (λ (u : Frontend P). Lists P O u.services) {x = s} {y = s'} (ground (arith, e)) a
    Step-Lists O replies {s = s} {s' = s'} h v (read failed bytes stop r now again e) d a =
        subst (λ (u : Frontend P). Lists P O u.services) {x = s} {y = s'} (ground (arith, e)) a
    Step-Lists O replies {s = s} h v (deadline status r stop sending sent e) d a =
        deadline-Lists O status r stop sending s v e a
    Step-Lists O replies {s = s} h v (answered host port status) d a =
        keep-alive P (Lists P O) (λ u m l. l) host port status s.services a
    Step-Lists O replies {s = s} h v (connected host port) d a =
        keep-connected P (Lists P O) (λ u m l. l) host port s.services a
    Step-Lists O replies {s = s} h v (chosen r request answer services e) d a =
        get_service-Lists P O r request s.services e a
    Step-Lists O replies {s = s} h v (removed r host port uri services e) d a =
        remove_backend-Lists P O r host port uri s.services e a
