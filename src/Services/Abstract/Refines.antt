-- ===== src/Services/Abstract/Refines.antt =====
-- Each call of the registry does to it what it does to the three functions, to the URIs and to the
-- prefixes.
use mathlib.Core.Path.{subst}
use smartmet_engine_sputnik.Prelude.{
  ℕ, ◌≡◌, refl, ap, ◌∙◌, inl, inr, not, ◌&&◌, [], ◌∷◌, ◌++◌, some, if◌then◌else◌, keep,
  Option-cases, ℤ, int_eq, arith,
}
use smartmet_engine_sputnik.Text.{Str, str_eq}
use smartmet_engine_sputnik.Text.Order.{str_eq_iff}
use smartmet_engine_sputnik.OrderedMap.{find, set_insert, map_values}
use smartmet_engine_sputnik.OrderedMap.Keys.{keys, keys-assign, keys-map_values}
use smartmet_engine_sputnik.PrefixMap.{add_prefix}
use smartmet_engine_sputnik.Services.Abstract.Visits.{visit_entries-forget_all}
use smartmet_engine_sputnik.OrderedMap.Laws.{find-assign, assign-IsSorted}
use smartmet_engine_sputnik.Platform.{Platform}
use smartmet_engine_sputnik.Spine.{Reactor}
use smartmet_engine_sputnik.Outcome.{Result-cases, ok}
use smartmet_engine_sputnik.Sentinel.{BackendSentinel}
use smartmet_engine_sputnik.Backend.{BackendService, BackendInfoRequest}
use smartmet_engine_sputnik.Services.Validity.{
  IsValid, initial-IsValid, add_service-IsValid, latest_sequence-IsValid, remove_backend-IsValid,
}
use smartmet_engine_sputnik.Services.Provided.{
  provided, provided-add_service, provided-latest_sequence, provided-remove_backend,
}
use smartmet_engine_sputnik.Services.Requests.{
  requests, requests_of, requests-add, requests-latest_sequence,
}
use smartmet_engine_sputnik.Services.Hosts.{
  update_sentinel-IsValid, sentinel_name-eq, find-renew_sentinel,
}
use smartmet_engine_sputnik.Services.{
  Services, initial, sentinel_name, is_removed, is_latest, is_latest_request, add_service,
  add_known_service, add_backend_info_request, latest_sequence, remove_backend, update_sentinel,
  set_forwarding, parse_mode, sweep_entry, visit_entries,
}
use smartmet_engine_sputnik.Services.Abstract.{
  added, info_added, cleaned, removed, updated, View, forget_all, call_on, empty, replay_call,
}

module _ (P : Platform) where
  -- The registry looks like the view, and is in a valid state.
  pub record Shows (s : Services P) (a : View P) : Type 0 where
    pub valid : IsValid P s
    pub listed : (key : Str) → provided P s key ≡ a.listed key
    pub info : (name : Str) → requests P s name ≡ a.info name
    pub state :
        (host : Str) (port : ℤ) → find (sentinel_name host port) s.sentinels ≡ a.state host port
    pub uris : keys s.services_by_uri ≡ a.uris
    pub prefixes : s.prefix_map ≡ a.prefixes

  pub added-Shows :
      (r : Reactor) (now : ℕ) (b : BackendService P.Float) (uri : Str) (load : P.Float)
      (throttle : ℕ) (s : Services P) (a : View P)
      → Shows s a
      → Shows
          (add_service P r now (some b) uri load throttle s).0
          (replay_call P (added r now b uri load throttle) a)
  unfolding add_service add_known_service
  added-Shows r now b uri load throttle s a v = record {
    valid = add_service-IsValid P r now (some b) uri load throttle s v.valid;
    listed = λ key.
        provided-add_service P r now b uri load throttle s key
        ∙ ap (λ xs. xs ++ (if str_eq uri key then b ∷ [] else [])) (v.listed key);
    info = v.info;
    state = λ host port.
        find-renew_sentinel P (sentinel_name b.backend.name b.backend.port)
          (sentinel_name host port) throttle s v.valid
        ∙ ground
            (arith, sentinel_name-eq b.backend.name host b.backend.port port, v.state host port);
    uris = keys-assign uri _ s.services_by_uri ∙ ap (set_insert uri) v.uris;
    prefixes = ap (λ m. if b.defines_prefix then add_prefix uri b m else m) v.prefixes;
  }

  pub info_added-Shows :
      (q : BackendInfoRequest P.Float) (s : Services P) (a : View P)
      → Shows s a
      → Shows (add_backend_info_request P (some q) s).0 (replay_call P (info_added q) a)
  unfolding add_backend_info_request
  info_added-Shows q s a v = record {
    valid = record {
      uris = v.valid.uris;
      synced = v.valid.synced;
      prefixes = v.valid.prefixes;
      hosts = v.valid.hosts;
      queries = assign-IsSorted q.name _ s.info_requests v.valid.queries;
    };
    listed = v.listed;
    info = λ name.
        requests-add P q s name
        ∙ ap (λ xs. xs ++ (if str_eq q.name name then q ∷ [] else [])) (v.info name);
    state = v.state;
    uris = v.uris;
    prefixes = v.prefixes;
  }

  pub cleaned-Shows :
      (r : Reactor) (n : ℤ) (s : Services P) (a : View P)
      → Shows s a
      → Shows (latest_sequence P r n s) (replay_call P (cleaned r n) a)
  cleaned-Shows r n s a v = record {
    valid = latest_sequence-IsValid P r n s v.valid;
    listed = λ key. provided-latest_sequence P r n s key ∙ ap (keep (is_latest n)) (v.listed key);
    info = λ name.
        requests-latest_sequence P r n s name ∙ ap (keep (is_latest_request n)) (v.info name);
    state = unfold latest_sequence in v.state;
    uris = unfold latest_sequence in keys-map_values _ s.services_by_uri ∙ v.uris;
    prefixes = unfold latest_sequence in v.prefixes;
  }

  pub removed-Shows :
      (r : Reactor) (host : Str) (port : ℤ) (uri : Str) (s : Services P) {s' : Services P}
      (a : View P)
      → remove_backend P r host port uri s ≡ some s'
      → Shows s a
      → Shows s' (replay_call P (removed r host port uri) a)
  unfolding remove_backend
  removed-Shows r host port uri s {s'} a e v =
      let stays = λ (b : BackendService P.Float). not (is_removed host port uri b) in
      let same_lists : s'.services_by_uri ≡ map_values (sweep_entry P stays r) s.services_by_uri =
        ground (arith, e) in
      let same_prefixes : s'.prefix_map ≡ visit_entries P uri s.services_by_uri s.prefix_map =
        ground (arith, e) in
      let same_info : s'.info_requests ≡ s.info_requests = ground (arith, e) in
      let same_state : s'.sentinels ≡ s.sentinels = ground (arith, e) in
      record {
        valid = remove_backend-IsValid P r host port uri s v.valid e;
        listed = λ key.
            provided-remove_backend P r host port uri s e key
            ∙ ap (keep (λ b. not (is_removed host port uri b))) (v.listed key);
        info = λ name. ap (λ m. requests_of P (find name m)) same_info ∙ v.info name;
        state = λ h p. ap (λ m. find (sentinel_name h p) m) same_state ∙ v.state h p;
        uris =
            ap keys same_lists ∙ keys-map_values (sweep_entry P stays r) s.services_by_uri ∙ v.uris;
        prefixes =
            same_prefixes
            ∙ visit_entries-forget_all P uri a.listed s.services_by_uri s.prefix_map v.valid.uris
                v.listed
            ∙ ap (λ ks. forget_all P uri ks a.listed s.prefix_map) v.uris
            ∙ ap (λ m. forget_all P uri a.uris a.listed m) v.prefixes;
      }

  find-update_sentinel :
      (call : BackendSentinel → BackendSentinel) (host : Str) (port : ℤ) (s : Services P)
      (host' : Str) (port' : ℤ)
      → find (sentinel_name host' port') (update_sentinel P call host port s).sentinels ≡ (
          if str_eq host host' && int_eq port port'
          then call_on call (find (sentinel_name host' port') s.sentinels)
          else find (sentinel_name host' port') s.sentinels)
  unfolding update_sentinel
  find-update_sentinel call host port s host' port' =
      let key = sentinel_name host port in
      let key' = sentinel_name host' port' in
      let same = sentinel_name-eq host host' port port' in
      let equal = str_eq_iff key key' in
      elim (Option-cases (find key s.sentinels)) [
        | inl e ↦
            rw (e, update_sentinel) (ground (arith, e, same, equal, ap (λ z. find z s.sentinels)))
        | inr (x, e) ↦
            rw (e, update_sentinel)
              (find-assign key key' (call x) s.sentinels ∙ ground (arith, e, same, equal))
      ]

  pub updated-Shows :
      (call : BackendSentinel → BackendSentinel) (host : Str) (port : ℤ) (s : Services P)
      (a : View P)
      → Shows s a
      → Shows (update_sentinel P call host port s) (replay_call P (updated call host port) a)
  unfolding update_sentinel
  updated-Shows call host port s a v =
      let states = λ (h : Str) (p : ℤ). find-update_sentinel call host port s h p in
      let moved = λ (h : Str) (p : ℤ).
        ap (λ o. if str_eq host h && int_eq port p then call_on call o else o) (v.state h p) in
      elim (Option-cases (find (sentinel_name host port) s.sentinels)) [
        | inl e ↦ record {
          valid = update_sentinel-IsValid P call host port s v.valid;
          listed = rw (e, update_sentinel) v.listed;
          info = rw (e, update_sentinel) v.info;
          state = λ h p. states h p ∙ moved h p;
          uris = rw (e, update_sentinel) v.uris;
          prefixes = rw (e, update_sentinel) v.prefixes;
        }
        | inr (x, e) ↦ record {
          valid = update_sentinel-IsValid P call host port s v.valid;
          listed = rw (e, update_sentinel) v.listed;
          info = rw (e, update_sentinel) v.info;
          state = λ h p. states h p ∙ moved h p;
          uris = rw (e, update_sentinel) v.uris;
          prefixes = rw (e, update_sentinel) v.prefixes;
        }
      ]

  pub forwarded-Shows :
      (mode : Str) (factor : P.Float) (cookie : Str) (s : Services P) {s' : Services P} (a : View P)
      → set_forwarding P mode factor cookie s ≡ ok s'
      → Shows s a
      → Shows s' a
  unfolding set_forwarding
  forwarded-Shows mode factor cookie s {s'} a e v = elim (Result-cases (parse_mode P mode)) [
    | inr (x, h) ↦ absurd (cc (rw (h, set_forwarding) at e))
    | inl (m, h) ↦
        let same : record s { fwd_mode = m; balancing_coefficient = factor; cookie_name = cookie }
            ≡ s' =
          ground (arith, e, h) in
        subst (λ (u : Services P). Shows u a) same
          (record {
            valid = record {
              uris = v.valid.uris;
              synced = v.valid.synced;
              prefixes = v.valid.prefixes;
              hosts = v.valid.hosts;
              queries = v.valid.queries;
            };
            listed = v.listed;
            info = v.info;
            state = v.state;
            uris = v.uris;
            prefixes = v.prefixes;
          })
  ]

  pub initial-Shows : Shows (initial P) (empty P)
  unfolding initial find
  initial-Shows = record {
    valid = initial-IsValid P;
    listed = λ key. refl;
    info = λ name. refl;
    state = λ host port. refl;
    uris = refl;
    prefixes = refl;
  }
