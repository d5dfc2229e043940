-- ===== src/Messages/Validity.antt =====
-- What a message leaves of the invariant of the frontend's services.
use smartmet_engine_sputnik.Prelude.{ℕ, Bool, some}
use smartmet_engine_sputnik.OrderedMap.Laws.{assign-IsSorted}
use smartmet_engine_sputnik.Platform.{Platform}
use smartmet_engine_sputnik.Spine.{Reactor}
use smartmet_engine_sputnik.Outcome.{Result}
use smartmet_engine_sputnik.Backend.{BackendInfoRequest}
use smartmet_engine_sputnik.Services.{Services, add_backend_info_request}
use smartmet_engine_sputnik.Services.Validity.{IsValid, add_service-IsValid}
use smartmet_engine_sputnik.Messages.{BroadcastMessage, process_reply}
use smartmet_engine_sputnik.Messages.Keeping.{Leaves, IsKept, keep-process_reply}

module _ (P : Platform) where
  -- `addBackendInfoRequest` keeps the invariant of the services.
  pub add_backend_info_request-IsValid :
      (q : BackendInfoRequest P.Float) (s : Services P)
      → IsValid P s
      → IsValid P (add_backend_info_request P (some q) s).0
  unfolding add_backend_info_request
  add_backend_info_request-IsValid q s v = record {
    uris = v.uris;
    synced = v.synced;
    prefixes = v.prefixes;
    hosts = v.hosts;
    queries = assign-IsSorted q.name _ s.info_requests v.queries;
  }

  IsValid-IsKept :
      (r : Reactor) (now : ℕ) (message : BroadcastMessage P.Float)
      → IsKept P (IsValid P) r now message
  IsValid-IsKept r now message = record {
    by_service =
        λ b uri load throttle s known v. add_service-IsValid P r now (some b) uri load throttle s v;
    by_request = add_backend_info_request-IsValid;
  }

  -- What a call leaves, if it returns, is a valid state.
  abbrev pub LeavesValid : Result (Services P × ℕ) → Type 0
  LeavesValid result = Leaves P (IsValid P) result

  -- Whatever message arrives, the frontend's services stay valid.
  pub process_reply-LeavesValid :
      (stop : Bool) (r : Reactor) (now : ℕ) (message : BroadcastMessage P.Float) (received : ℕ)
      (s : Services P)
      → IsValid P s
      → LeavesValid (process_reply P stop r now message (s, received))
  process_reply-LeavesValid stop r now message received s v =
      keep-process_reply P (IsValid P) r now message (IsValid-IsKept r now message) stop received s
        v
