-- ===== src/Engine/Reach.antt =====
-- The frontend as a state machine: datagrams, deadlines, finished connections and forwarded
-- requests in any order.
use smartmet_engine_sputnik.Services.Answers.{get_service-Answers, Answers}
use smartmet_engine_sputnik.Sentinel.{BackendSentinel}
use smartmet_engine_sputnik.OrderedMap.{OrderedMap}
use smartmet_engine_sputnik.OrderedMap.{OrderedMap}
use mathlib.Core.Path.{subst}
use smartmet_engine_sputnik.Prelude.{ℕ, ◌≡◌, Bool, true, Option, some, ℤ, arith}
use smartmet_engine_sputnik.Text.{Str}
use smartmet_engine_sputnik.Platform.{Platform, IsRandom}
use smartmet_engine_sputnik.Spine.{Reactor, Request}
use smartmet_engine_sputnik.Outcome.{Result, ok, err, Returns, ◌>>=◌}
use smartmet_engine_sputnik.Backend.{BackendService}
use smartmet_engine_sputnik.Messages.{BroadcastMessage, process_reply}
use smartmet_engine_sputnik.Messages.Validity.{process_reply-LeavesValid, LeavesValid}
use smartmet_engine_sputnik.Services.Validity.{IsValid, remove_backend-IsValid}
use smartmet_engine_sputnik.Services.Hosts.{keep-update_sentinel, update_sentinel-IsValid}
use smartmet_engine_sputnik.Services.{
  Services, sentinel_name, update_sentinel, signal_backend_connection, remove_backend, get_service,
}
use smartmet_engine_sputnik.Services
use smartmet_engine_sputnik.Engine.Cycle.{IsSound, handle_deadline_timer-IsSound}
use smartmet_engine_sputnik.Engine.{
  Sending, Frontend, Status, success, operation_aborted, failed, StreamerStatus, exit_ok, other,
  handle_deadline_timer, handle_frontend_read, set_backend_alive, Sent,
}

module _ (P : Platform) where
  abbrev pub store : Frontend P → Services P × ℕ → Result (Frontend P × Bool)
  store s (services, received) =
      ok (record s { services = services; received_responses = received }, true)

  -- What does not depend on the sentinels is kept when a connection has finished, or has been made.
  module _ (Q : Services P → Type 0)
      (free : (s : Services P) (m : OrderedMap BackendSentinel)
        → Q s
        → Q (record s { sentinels = m })) where
    pub keep-alive :
        (host : Str) (port : ℤ) (status : StreamerStatus) (s : Services P)
        → Q s
        → Q (set_backend_alive P host port status s)
    unfolding set_backend_alive Services.set_backend_alive
    keep-alive host port exit_ok s q = keep-update_sentinel P Q free _ host port s q
    keep-alive host port other s q = q

    pub keep-connected :
        (host : Str) (port : ℤ) (s : Services P) → Q s → Q (signal_backend_connection P host port s)
    unfolding signal_backend_connection
    keep-connected host port s q = keep-update_sentinel P Q free _ host port s q

  pub with_services-IsSound :
      (s : Frontend P) (services : Services P) (received : ℕ)
      → IsSound P s
      → IsValid P services
      → IsSound P (record s { services = services; received_responses = received })
  with_services-IsSound s services received v w = record {
    sequence_range = v.sequence_range;
    destinations = v.destinations;
    skipped_range = v.skipped_range;
    max_range = v.max_range;
    valid = w;
  }

  read-IsSound :
      (s : Frontend P) (result : Result (Services P × ℕ)) {s' : Frontend P} {again : Bool}
      → IsSound P s
      → LeavesValid P result
      → (result >>= store s) ≡ ok (s', again)
      → IsSound P s'
  read-IsSound s (ok (services, received)) v w e =
      subst (IsSound P) (ground (arith, e)) (with_services-IsSound s services received v w)
  read-IsSound s (err x) v w e = absurd (cc)

  module _ (parse : Str → BroadcastMessage P.Float) where
    -- One event at a frontend, with whatever the outside answers in the course of it.
    pub data Step : Frontend P → Frontend P → Type 0 where
      -- a datagram arrives, or a receive ends otherwise
      read :
          {s s' : Frontend P} (status : Status) (bytes : Str) (stop : Bool) (r : Reactor) (now : ℕ)
          (again : Bool)
          → handle_frontend_read P parse status bytes stop r now s ≡ ok (s', again)
          → Step s s'
      -- the deadline timer ends
      deadline :
          {s s' : Frontend P} (status : Status) (r : Reactor) (stop : Bool) (sending : Sending)
          (sent : Option (Sent P))
          → handle_deadline_timer P status r stop sending s ≡ ok (s', sent)
          → Step s s'
      -- a connection to a backend has finished
      answered :
          {s : Frontend P} (host : Str) (port : ℤ) (status : StreamerStatus)
          → Step s (record s { services = set_backend_alive P host port status s.services })
      -- a request is sent to a backend
      connected :
          {s : Frontend P} (host : Str) (port : ℤ)
          → Step s (record s { services = signal_backend_connection P host port s.services })
      -- a backend is chosen for a request
      chosen :
          {s : Frontend P} (r : Reactor) (request : Request)
          (answer : Option (BackendService P.Float)) (services : Services P)
          → get_service P r request s.services ≡ ok (answer, services)
          → Step s (record s { services = services })
      -- a backend that does not respond is removed
      removed :
          {s : Frontend P} (r : Reactor) (host : Str) (port : ℤ) (uri : Str) (services : Services P)
          → remove_backend P r host port uri s.services ≡ some services
          → Step s (record s { services = services })

    pub data Reach (s : Frontend P) : Frontend P → Type 0 where
      here : Reach s s
      further : {t u : Frontend P} → Reach s t → Step t u → Reach s u

    read_step-IsSound :
        (status : Status) (bytes : Str) (stop : Bool) (r : Reactor) (now : ℕ) (s : Frontend P)
        {s' : Frontend P} {again : Bool}
        → IsSound P s
        → handle_frontend_read P parse status bytes stop r now s ≡ ok (s', again)
        → IsSound P s'
    unfolding handle_frontend_read
    read_step-IsSound operation_aborted bytes stop r now s v e =
        subst (IsSound P) (ground (arith, e)) v
    read_step-IsSound failed bytes stop r now s v e = subst (IsSound P) (ground (arith, e)) v
    read_step-IsSound success bytes stop r now s v e =
        read-IsSound s (process_reply P stop r now (parse bytes) (s.services, s.received_responses))
          v
          (process_reply-LeavesValid P stop r now (parse bytes) s.received_responses s.services
            v.valid)
          e

    deadline_step-IsSound :
        (status : Status) (r : Reactor) (stop : Bool) (sending : Sending) (s : Frontend P)
        {s' : Frontend P} {sent : Option (Sent P)}
        → IsSound P s
        → handle_deadline_timer P status r stop sending s ≡ ok (s', sent)
        → IsSound P s'
    deadline_step-IsSound status r stop sending s v e =
        let ((t, sent'), run, w) = handle_deadline_timer-IsSound P status r stop sending s v in
        subst (IsSound P) (ground (arith, e, run)) w

    pub alive_step-IsValid :
        (host : Str) (port : ℤ) (status : StreamerStatus) (s : Services P)
        → IsValid P s
        → IsValid P (set_backend_alive P host port status s)
    unfolding set_backend_alive Services.set_backend_alive
    alive_step-IsValid host port exit_ok s v = update_sentinel-IsValid P _ host port s v
    alive_step-IsValid host port other s v = v

    pub connected_step-IsValid :
        (host : Str) (port : ℤ) (s : Services P)
        → IsValid P s
        → IsValid P (signal_backend_connection P host port s)
    unfolding signal_backend_connection
    connected_step-IsValid host port s v = update_sentinel-IsValid P _ host port s v

    module _ (laws : IsRandom P) where
      pub chosen_step-IsValid :
          (r : Reactor) (request : Request) (s : Services P)
          {answer : Option (BackendService P.Float)} {s' : Services P}
          → IsValid P s
          → get_service P r request s ≡ ok (answer, s')
          → IsValid P s'
      chosen_step-IsValid r request s v e =
          let ((answer', t), run, w) = get_service-Answers P laws r request s v in
          subst (IsValid P) (ground (arith, e, run)) w.0

      pub Step-IsSound : {s s' : Frontend P} → IsSound P s → Step s s' → IsSound P s'
      Step-IsSound {s} v (read status bytes stop r now again e) =
          read_step-IsSound status bytes stop r now s v e
      Step-IsSound {s} v (deadline status r stop sending sent e) =
          deadline_step-IsSound status r stop sending s v e
      Step-IsSound {s} v (answered host port status) =
          with_services-IsSound s _ s.received_responses v
            (alive_step-IsValid host port status s.services v.valid)
      Step-IsSound {s} v (connected host port) =
          with_services-IsSound s _ s.received_responses v
            (connected_step-IsValid host port s.services v.valid)
      Step-IsSound {s} v (chosen r request answer services e) =
          with_services-IsSound s services s.received_responses v
            (chosen_step-IsValid r request s.services v.valid e)
      Step-IsSound {s} v (removed r host port uri services e) =
          with_services-IsSound s services s.received_responses v
            (remove_backend-IsValid P r host port uri s.services v.valid e)

      pub Reach-IsSound : {s s' : Frontend P} → IsSound P s → Reach s s' → IsSound P s'
      Reach-IsSound v here = v
      Reach-IsSound v (further path step) = Step-IsSound (Reach-IsSound v path) step

      -- If random draws are in the documented ranges: after any sequence of events at a frontend
      -- that began in a sound state, `getService` returns, a service listed for the request's
      -- prefix if there is one, and nothing if there is none.
      pub Reach-get_service :
          (s s' : Frontend P) (r : Reactor) (request : Request)
          → IsSound P s
          → Reach s s'
          → Returns (get_service P r request s'.services) (Answers P s'.services request.resource)
      Reach-get_service s s' r request v path =
          get_service-Answers P laws r request s'.services (Reach-IsSound v path).valid
