-- ===== src/Services.antt =====
-- sputnik/Services.h and Services.cpp: the services that the frontend knows of. Each method runs
-- under the locks of the object, so a call is one step. An entry's list and its forwarder are
-- reached through that entry only, so they are values.
pub mod Lists
unfoldable pub use Lists.*
pub mod Reports
pub mod Entries
pub mod Validity
pub mod Answers
pub mod Provided
pub mod Listed
pub mod Abstract
pub mod Requests
pub mod Prefixes
pub mod Hosts
pub mod Alignment
pub mod Ages
pub mod Punctual
use smartmet_engine_sputnik.Prelude.{
  ℕ, Bool, true, false, not, ◌&&◌, ◌||◌, List, [], ◌∷◌, ◌++◌, Option, none, some, if◌then◌else◌,
  is_empty, get_elem?, keep, all, ℤ, int_eq,
}
use smartmet_engine_sputnik.Text.{Str, codes, str_eq, to_string}
use smartmet_engine_sputnik.OrderedMap.{OrderedMap, find, assign, erase, map_values}
use smartmet_engine_sputnik.Platform.{Platform}
use smartmet_engine_sputnik.Spine.{Reactor, Request}
use smartmet_engine_sputnik.Outcome.{Result, ok, err, out_of_range, unknown_mode, ◌>>=◌}
use smartmet_engine_sputnik.Backend.{BackendService, BackendInfoRequest}
use smartmet_engine_sputnik.PrefixMap.{UriPrefixMap, translate, add_prefix}
use smartmet_engine_sputnik.PrefixMap
use smartmet_engine_sputnik.Sentinel.{
  BackendSentinel, new_sentinel, set_alive, get_alive, signal_sent_connection,
}
use smartmet_engine_sputnik.Forwarder.{
  ForwardingMode, random, inverse_load, inverse_connections, least_connections, double_random,
  exponential_connections, sticky, Forwarder, get_backend,
}
use smartmet_engine_sputnik.Forwarder

pub record Services (P : Platform) : Type 0 where
  pub services_by_uri : OrderedMap (Entry P)
  pub info_requests : OrderedMap (List (BackendInfoRequest P.Float))
  pub prefix_map : UriPrefixMap
  pub sentinels : OrderedMap BackendSentinel
  pub fwd_mode : ForwardingMode
  pub balancing_coefficient : P.Float
  pub cookie_name : Str

-- `theHostName + ":" + std::to_string(thePort)`
unfoldable pub sentinel_name : Str → ℤ → Str
sentinel_name host port = host ++ (b':' ∷ to_string port)

module _ (P : Platform) where
  open P use {Float, zero_f, two_f, seeded}

  unfoldable pub initial : Services P
  initial = record {
    services_by_uri = [];
    info_requests = [];
    prefix_map = [];
    sentinels = [];
    fwd_mode = inverse_connections;
    balancing_coefficient = two_f;
    cookie_name = [];
  }

  -- `none` is the process that has killed itself, since no service is left.
  unfoldable pub remove_backend : Reactor → Str → ℤ → Str → Services P → Option (Services P)
  unfolding sweep_entry visit_entries none_left
  remove_backend r host port uri s =
      let swept =
        map_values (sweep_entry P (λ b. not (is_removed host port uri b)) r) s.services_by_uri in
      if none_left P swept
      then none
      else some (record s {
        services_by_uri = swept;
        prefix_map = visit_entries P uri s.services_by_uri s.prefix_map;
      })

  unfoldable pub latest_sequence : Reactor → ℤ → Services P → Services P
  unfolding sweep_entry
  latest_sequence r n s = record s {
    services_by_uri = map_values (sweep_entry P (is_latest n) r) s.services_by_uri;
    info_requests = map_values (keep (is_latest_request n)) s.info_requests;
  }

  unfoldable pub entry_for : Services P → Str → ℕ → Entry P
  unfolding new_forwarder
  entry_for s uri now = elim (find uri s.services_by_uri) [
    | some e ↦ e
    | none ↦ record {
      services = [];
      forwarder = new_forwarder P s.fwd_mode s.balancing_coefficient s.cookie_name now;
    }
  ]

  -- A new sentinel replaces the old one.
  unfoldable pub renew_sentinel : Str → ℕ → OrderedMap BackendSentinel → OrderedMap BackendSentinel
  renew_sentinel name throttle m = elim (find name m) [
    | none ↦ assign name (new_sentinel throttle) m
    | some old ↦ assign name (new_sentinel throttle) (erase name m)
  ]

  unfoldable pub add_known_service :
      Reactor → ℕ → BackendService Float → Str → Float → ℕ → Services P → Services P
  unfolding extend_entry entry_for renew_sentinel
  add_known_service r now b uri load throttle s = record s {
    prefix_map = if b.defines_prefix then add_prefix uri b s.prefix_map else s.prefix_map;
    services_by_uri = assign uri (extend_entry P r b load (entry_for s uri now)) s.services_by_uri;
    sentinels = renew_sentinel (sentinel_name b.backend.name b.backend.port) throttle s.sentinels;
  }

  -- A null pointer is refused.
  unfoldable pub add_service :
      Reactor → ℕ → Option (BackendService Float) → Str → Float → ℕ → Services P → Services P × Bool
  unfolding add_known_service
  add_service r now none uri load throttle s = (s, false)
  add_service r now (some b) uri load throttle s =
      (add_known_service r now b uri load throttle s, true)

  unfoldable pub service_at : List (BackendService Float) → ℕ → Result (BackendService Float)
  service_at ss i = elim (get_elem? ss i) [ none ↦ err out_of_range | some b ↦ ok b ]

  -- The part of `getService` behind the two tests; the forwarder's new state is stored.
  unfoldable pub choose :
      Reactor
      → Request
      → Str
      → Entry P
      → Services P
      → Result (Option (BackendService Float) × Services P)
  unfolding service_at
  choose r request prefix e s = get_backend P r request e.forwarder >>= λ (i, f).
      service_at e.services i >>= λ b. ok (
        some b,
        record s { services_by_uri = assign prefix (record e { forwarder = f }) s.services_by_uri },
      )

  unfoldable pub get_service :
      Reactor → Request → Services P → Result (Option (BackendService Float) × Services P)
  unfolding choose
  get_service r request s =
      let prefix = translate s.prefix_map request.resource in
      elim (find prefix s.services_by_uri) [
        | none ↦ ok (none, s)
        | some e ↦ if is_empty e.services then ok (none, s) else choose r request prefix e s
      ]

  unfoldable pub add_backend_info_request :
      Option (BackendInfoRequest Float) → Services P → Services P × Bool
  add_backend_info_request none s = (s, false)
  add_backend_info_request (some q) s =
      let old : List (BackendInfoRequest Float) = elim (find q.name s.info_requests) [
        | none ↦ []
        | some qs ↦ qs
      ] in
      (record s { info_requests = assign q.name (old ++ q ∷ []) s.info_requests }, true)

  unfoldable pub query_backend_alive : Str → ℤ → Services P → Bool
  query_backend_alive host port s = elim (find (sentinel_name host port) s.sentinels) [
    | none ↦ false
    | some sentinel ↦ get_alive sentinel
  ]

  -- A call on the sentinel that the map holds, if any.
  unfoldable pub update_sentinel :
      (BackendSentinel → BackendSentinel) → Str → ℤ → Services P → Services P
  update_sentinel call host port s = elim (find (sentinel_name host port) s.sentinels) [
    | none ↦ s
    | some sentinel ↦ record s {
      sentinels = assign (sentinel_name host port) (call sentinel) s.sentinels;
    }
  ]

  unfoldable pub set_backend_alive : Str → ℤ → Services P → Services P
  unfolding update_sentinel
  set_backend_alive host port s = update_sentinel set_alive host port s

  unfoldable pub signal_backend_connection : Str → ℤ → Services P → Services P
  unfolding update_sentinel
  signal_backend_connection host port s = update_sentinel signal_sent_connection host port s

  -- The names of the forwarding modes.
  unfoldable pub parse_mode : Str → Result ForwardingMode
  parse_mode m =
      if str_eq m (codes "inverseload")
      then ok inverse_load
      else if str_eq m (codes "random")
      then ok random
      else if str_eq m (codes "doublerandom")
      then ok double_random
      else if str_eq m (codes "inverseconnections")
      then ok inverse_connections
      else if str_eq m (codes "leastconnections")
      then ok least_connections
      else if str_eq m (codes "exponentialconnections")
      then ok exponential_connections
      else if str_eq m (codes "sticky")
      then ok sticky
      else err unknown_mode

  unfoldable pub set_forwarding : Str → Float → Str → Services P → Result (Services P)
  unfolding parse_mode
  set_forwarding mode a cookie s = parse_mode mode >>= λ m.
      ok (record s { fwd_mode = m; balancing_coefficient = a; cookie_name = cookie })
