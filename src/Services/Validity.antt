-- ===== src/Services/Validity.antt =====
-- The invariant of `Services`, kept by each of its operations, and the total correctness of
-- `getService`.
use mathlib.Core.Option.{some-injective}
use mathlib.Core.Path.{subst}
use smartmet_engine_sputnik.Prelude.{
  ℕ, ◌≡◌, refl, inl, inr, Bool, true, false, not, List, [], ◌∷◌, Option, none, some, if◌then◌else◌,
  is_empty, Bool-cases, Option-cases, ℤ,
}
use smartmet_engine_sputnik.Text.{Str}
use smartmet_engine_sputnik.OrderedMap.{OrderedMap, find, erase, map_values}
use smartmet_engine_sputnik.OrderedMap.Laws.{
  IsSorted, assign-IsSorted, erase-IsSorted, map_values-IsSorted, AllValues, AllValues-assign,
  AllValues-map_values, AllValues-find,
}
use smartmet_engine_sputnik.Platform.{Platform}
use smartmet_engine_sputnik.Spine.{Reactor}
use smartmet_engine_sputnik.Backend.{BackendService}
use smartmet_engine_sputnik.PrefixMap.{UriPrefixMap, translate}
use smartmet_engine_sputnik.PrefixMap
use smartmet_engine_sputnik.PrefixMap.Updates
use smartmet_engine_sputnik.Sentinel.{BackendSentinel}
use smartmet_engine_sputnik.Services.Entries.{IsSynced, sweep_entry-IsSynced, extend_entry-IsSynced}
use smartmet_engine_sputnik.Services.{
  Entry, Services, is_removed, is_latest, sweep_entry, visit_services, visit_entries, none_left,
  remove_backend, latest_sequence, new_forwarder, entry_for, renew_sentinel, add_known_service,
  add_service, initial,
}

pub is_empty_nil : {A : Type 0} (xs : List A) → is_empty xs ≡ true → xs ≡ []
is_empty_nil [] e = refl
is_empty_nil (x ∷ xs) e = cc

module _ (P : Platform) where
  -- The maps are in key order, every list is in step with its forwarder, and the prefix map is
  -- valid.
  pub record IsValid (s : Services P) : Type 0 where
    pub uris : IsSorted s.services_by_uri
    pub synced : AllValues (IsSynced P) s.services_by_uri
    pub prefixes : PrefixMap.Updates.IsValid s.prefix_map
    pub hosts : IsSorted s.sentinels
    pub queries : IsSorted s.info_requests

  -- A frontend starts with a valid value.
  pub initial-IsValid : IsValid (initial P)
  unfolding initial
  initial-IsValid = record {
    uris = tt;
    synced = tt;
    prefixes = record { sorted = tt; filled = tt; rising = tt };
    hosts = tt;
    queries = tt;
  }

  -- `latestSequence` keeps the invariant of the services.
  pub latest_sequence-IsValid :
      (r : Reactor) (n : ℤ) (s : Services P) → IsValid s → IsValid (latest_sequence P r n s)
  unfolding latest_sequence
  latest_sequence-IsValid r n s v = record {
    uris = map_values-IsSorted _ s.services_by_uri v.uris;
    synced =
        AllValues-map_values _ _ (sweep_entry-IsSynced P (is_latest n) r) s.services_by_uri
          v.synced;
    prefixes = v.prefixes;
    hosts = v.hosts;
    queries = map_values-IsSorted _ s.info_requests v.queries;
  }

  pub visit_services-IsValid :
      (uri : Str) (ss : List (BackendService P.Float)) (m : UriPrefixMap)
      → PrefixMap.Updates.IsValid m
      → PrefixMap.Updates.IsValid (visit_services P uri ss m)
  unfolding visit_services
  visit_services-IsValid uri [] m v = v
  visit_services-IsValid uri (s ∷ ss) m v =
      visit_services-IsValid uri ss _ (PrefixMap.Updates.remove_backend-IsValid uri s m v)

  visit_entries-IsValid :
      (uri : Str) (es : OrderedMap (Entry P)) (m : UriPrefixMap)
      → PrefixMap.Updates.IsValid m
      → PrefixMap.Updates.IsValid (visit_entries P uri es m)
  unfolding visit_entries
  visit_entries-IsValid uri [] m v = v
  visit_entries-IsValid uri ((k, e) ∷ es) m v =
      visit_entries-IsValid uri es _ (visit_services-IsValid uri e.services m v)

  -- `removeBackend` keeps the invariant of the services, if it does not end the process.
  pub remove_backend-IsValid :
      (r : Reactor) (host : Str) (port : ℤ) (uri : Str) (s : Services P) {s' : Services P}
      → IsValid s
      → remove_backend P r host port uri s ≡ some s'
      → IsValid s'
  unfolding remove_backend
  remove_backend-IsValid r host port uri s {s'} v e =
      let stays = λ (b : BackendService P.Float). not (is_removed host port uri b) in
      let swept = map_values (sweep_entry P stays r) s.services_by_uri in
      elim (Bool-cases (none_left P swept)) [
        | inl dead ↦ absurd (cc (rw dead at e))
        | inr left ↦ subst IsValid (some-injective _ _ (rw left at e)) (record {
          uris = map_values-IsSorted _ s.services_by_uri v.uris;
          synced =
              AllValues-map_values _ _ (sweep_entry-IsSynced P stays r) s.services_by_uri v.synced;
          prefixes = visit_entries-IsValid uri s.services_by_uri s.prefix_map v.prefixes;
          hosts = v.hosts;
          queries = v.queries;
        })
      ]

  entry_for-IsSynced :
      (s : Services P) (uri : Str) (now : ℕ) → IsValid s → IsSynced P (entry_for P s uri now)
  unfolding entry_for
  entry_for-IsSynced s uri now v = elim (Option-cases (find uri s.services_by_uri)) [
    | inl e ↦
        rw (e, entry_for)
          (unfold new_forwarder in
            record {
              in_step = record { counts = λ h p. refl; sizes = refl };
              balanced = λ h. refl;
            })
    | inr (old, e) ↦
        rw (e, entry_for) (AllValues-find (IsSynced P) uri s.services_by_uri v.synced e)
  ]

  renew_sentinel-IsSorted :
      (name : Str) (throttle : ℕ) (m : OrderedMap BackendSentinel)
      → IsSorted m
      → IsSorted (renew_sentinel P name throttle m)
  unfolding renew_sentinel
  renew_sentinel-IsSorted name throttle m v = elim (Option-cases (find name m)) [
    | inl e ↦ rw (e, renew_sentinel) (assign-IsSorted name _ m v)
    | inr (old, e) ↦
        rw (e, renew_sentinel) (assign-IsSorted name _ (erase name m) (erase-IsSorted name m v))
  ]

  prefixes-if :
      (test : Bool) (b : BackendService P.Float) (uri : Str) (m : UriPrefixMap)
      → PrefixMap.Updates.IsValid m
      → PrefixMap.Updates.IsValid (if test then PrefixMap.add_prefix uri b m else m)
  prefixes-if true b uri m v = PrefixMap.Updates.add_prefix-IsValid uri b m v
  prefixes-if false b uri m v = v

  pub add_known_service-IsValid :
      (r : Reactor) (now : ℕ) (b : BackendService P.Float) (uri : Str) (load : P.Float)
      (throttle : ℕ) (s : Services P)
      → IsValid s
      → IsValid (add_known_service P r now b uri load throttle s)
  unfolding add_known_service
  add_known_service-IsValid r now b uri load throttle s v = record {
    uris = assign-IsSorted uri _ s.services_by_uri v.uris;
    synced =
        AllValues-assign (IsSynced P) uri _ s.services_by_uri
          (extend_entry-IsSynced P r b load _ (entry_for-IsSynced s uri now v)) v.synced;
    prefixes = prefixes-if b.defines_prefix b uri s.prefix_map v.prefixes;
    hosts = renew_sentinel-IsSorted _ throttle s.sentinels v.hosts;
    queries = v.queries;
  }

  -- `addService` keeps the invariant of the services, also when it refuses a null pointer.
  pub add_service-IsValid :
      (r : Reactor) (now : ℕ) (b : Option (BackendService P.Float)) (uri : Str) (load : P.Float)
      (throttle : ℕ) (s : Services P)
      → IsValid s
      → IsValid (add_service P r now b uri load throttle s).0
  unfolding add_service
  add_service-IsValid r now none uri load throttle s v = v
  add_service-IsValid r now (some b) uri load throttle s v =
      add_known_service-IsValid r now b uri load throttle s v
