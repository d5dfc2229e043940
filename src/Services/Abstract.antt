-- ===== src/Services/Abstract.antt =====
-- The registry as three functions: what is listed under a URI, which info requests a name has, and
-- which state a backend is in; with the URIs that it knows and the map of the prefixes.
pub mod Visits
pub mod Refines
pub mod Runs
pub mod Agrees
use mathlib.Core.Option.{some-injective}
use mathlib.Core.Path.{subst}
use smartmet_engine_sputnik.Prelude.{
  ℕ, ◌≡◌, refl, sym, ap, ◌∙◌, inl, inr, Bool, true, false, not, ◌&&◌, List, [], ◌∷◌, ◌++◌, Option,
  none, some, if◌then◌else◌, keep, Bool-cases, Option-cases, ℤ, int_eq, int_eq_iff, arith,
}
use smartmet_engine_sputnik.Text.{Str, str_eq}
use smartmet_engine_sputnik.Text.Order.{str_eq_iff}
use smartmet_engine_sputnik.OrderedMap.{find, set_insert}
use smartmet_engine_sputnik.OrderedMap.Laws.{find-assign, assign-IsSorted}
use smartmet_engine_sputnik.Platform.{Platform, IsRandom}
use smartmet_engine_sputnik.Spine.{Reactor, Request}
use smartmet_engine_sputnik.Outcome.{Result, Result-cases, ok, err}
use smartmet_engine_sputnik.Sentinel.{BackendSentinel, new_sentinel}
use smartmet_engine_sputnik.Backend.{BackendService, BackendInfoRequest}
use smartmet_engine_sputnik.Services.Entries.{on_backend}
use smartmet_engine_sputnik.PrefixMap.{UriPrefixMap, add_prefix}
use smartmet_engine_sputnik.Services.Validity.{
  IsValid, initial-IsValid, add_service-IsValid, latest_sequence-IsValid, remove_backend-IsValid,
}
use smartmet_engine_sputnik.Services.Listed.{IsListed, get_service-IsListed}
use smartmet_engine_sputnik.Services.Provided.{
  provided, provided-add_service, provided-latest_sequence, provided-remove_backend,
}
use smartmet_engine_sputnik.Services.Requests.{
  requests, requests_of, requests-add, requests-latest_sequence,
}
use smartmet_engine_sputnik.Services.Hosts.{
  update_sentinel-IsValid, sentinel_name-eq, find-renew_sentinel,
}
use smartmet_engine_sputnik.Services.{
  get_service, Services, initial, sentinel_name, is_removed, is_latest, is_latest_request,
  add_service, add_known_service, add_backend_info_request, latest_sequence, remove_backend,
  update_sentinel, set_forwarding, visit_services,
}

-- A call of the registry. `forwarded` is `setForwarding`, `updated` is a call on a backend's sentinel, as `setBackendAlive` and
-- `signalBackendConnection` make it, and `asked` is `getService`.
pub data Call (P : Platform) : Type 0 where
  added : Reactor → ℕ → BackendService P.Float → Str → P.Float → ℕ → Call P
  info_added : BackendInfoRequest P.Float → Call P
  cleaned : Reactor → ℤ → Call P
  forwarded : Str → P.Float → Str → Call P
  removed : Reactor → Str → ℤ → Str → Call P
  asked : Reactor → Request → Call P
  updated : (BackendSentinel → BackendSentinel) → Str → ℤ → Call P

-- What a client of the registry can tell of it.
pub record View (P : Platform) : Type 0 where
  pub listed : Str → List (BackendService P.Float)
  pub info : Str → List (BackendInfoRequest P.Float)
  pub state : Str → ℤ → Option BackendSentinel
  pub uris : List Str
  pub prefixes : UriPrefixMap

abbrev pub call_on :
    (BackendSentinel → BackendSentinel) → Option BackendSentinel → Option BackendSentinel
call_on call none = none
call_on call (some x) = some (call x)

module _ (P : Platform) where
  abbrev pub empty : View P
  empty = record {
    listed = λ uri. [];
    info = λ name. [];
    state = λ host port. none;
    uris = [];
    prefixes = [];
  }

  -- The prefix `only` loses the ids of all services that are listed under the URIs.
  abbrev pub forget_all :
      Str → List Str → (Str → List (BackendService P.Float)) → UriPrefixMap → UriPrefixMap
  forget_all only [] listed m = m
  forget_all only (uri ∷ uris) listed m =
      forget_all only uris listed (visit_services P only (listed uri) m)

  -- What a call does to the view.
  abbrev pub replay_call : Call P → View P → View P
  replay_call (added r now b uri load throttle) a = record {
    listed = λ key. a.listed key ++ (if str_eq uri key then b ∷ [] else []);
    info = a.info;
    state = λ host port.
        if on_backend host port b then some (new_sentinel throttle) else a.state host port;
    uris = set_insert uri a.uris;
    prefixes = if b.defines_prefix then add_prefix uri b a.prefixes else a.prefixes;
  }
  replay_call (info_added q) a = record {
    listed = a.listed;
    info = λ name. a.info name ++ (if str_eq q.name name then q ∷ [] else []);
    state = a.state;
    uris = a.uris;
    prefixes = a.prefixes;
  }
  replay_call (cleaned r n) a = record {
    listed = λ key. keep (is_latest n) (a.listed key);
    info = λ name. keep (is_latest_request n) (a.info name);
    state = a.state;
    uris = a.uris;
    prefixes = a.prefixes;
  }
  replay_call (removed r host port uri) a = record {
    listed = λ key. keep (λ b. not (is_removed host port uri b)) (a.listed key);
    info = a.info;
    state = a.state;
    uris = a.uris;
    prefixes = forget_all uri a.uris a.listed a.prefixes;
  }
  replay_call (forwarded mode factor cookie) a = a
  replay_call (asked r request) a = a
  replay_call (updated call host port) a = record {
    listed = a.listed;
    info = a.info;
    state = λ host' port'.
        if str_eq host host' && int_eq port port'
        then call_on call (a.state host' port')
        else a.state host' port';
    uris = a.uris;
    prefixes = a.prefixes;
  }

  abbrev pub replay : List (Call P) → View P → View P
  replay [] a = a
  replay (c ∷ calls) a = replay calls (replay_call c a)

  -- The same calls of the registry; nothing is left of a process that has killed itself. A mode that
  -- `setForwarding` does not know throws before a member is set.
  abbrev pub run_call : Call P → Services P → Option (Services P)
  run_call (added r now b uri load throttle) s =
      some (add_service P r now (some b) uri load throttle s).0
  run_call (info_added q) s = some (add_backend_info_request P (some q) s).0
  run_call (cleaned r n) s = some (latest_sequence P r n s)
  run_call (forwarded mode factor cookie) s = elim (set_forwarding P mode factor cookie s) [
    | ok s' ↦ some s'
    | err x ↦ some s
  ]
  run_call (removed r host port uri) s = remove_backend P r host port uri s
  run_call (asked r request) s = elim (get_service P r request s) [
    | ok (answer, s') ↦ some s'
    | err x ↦ none
  ]
  run_call (updated call host port) s = some (update_sentinel P call host port s)

  abbrev pub run : List (Call P) → Services P → Option (Services P)
  run [] s = some s
  run (c ∷ calls) s = elim (run_call c s) [ none ↦ none | some s' ↦ run calls s' ]
