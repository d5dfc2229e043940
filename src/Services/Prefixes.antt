-- ===== src/Services/Prefixes.antt =====
-- What `removeBackend` leaves of the prefix map.
use mathlib.Core.Option.{some-injective}
use smartmet_engine_sputnik.Prelude.{
  ◌≡◌, sym, ap, ◌∙◌, inl, inr, Bool, false, not, ◌||◌, ◌&&◌, List, [], ◌∷◌, some, Bool-cases, ℤ,
  arith,
}
use smartmet_engine_sputnik.Text.{Str, str_eq}
use smartmet_engine_sputnik.OrderedMap.{OrderedMap, map_values, set_contains}
use smartmet_engine_sputnik.Platform.{Platform}
use smartmet_engine_sputnik.Spine.{Reactor}
use smartmet_engine_sputnik.Backend.{BackendService}
use smartmet_engine_sputnik.PrefixMap.{UriPrefixMap, backend_service_id, ids_of}
use smartmet_engine_sputnik.PrefixMap.Updates
use smartmet_engine_sputnik.PrefixMap.Members.{contains-remove_backend}
use smartmet_engine_sputnik.Services.{
  Entry, Services, is_removed, sweep_entry, visit_services, visit_entries, none_left,
  remove_backend,
}
use smartmet_engine_sputnik.Services.Validity.{IsValid, visit_services-IsValid}

module _ (P : Platform) where
  -- Has some service of the list this id?
  abbrev pub in_list : Str → List (BackendService P.Float) → Bool
  in_list id [] = false
  in_list id (s ∷ ss) = str_eq (backend_service_id s) id || in_list id ss

  -- Has some service of any list this id?
  abbrev pub in_lists : Str → OrderedMap (Entry P) → Bool
  in_lists id [] = false
  in_lists id ((k, e) ∷ es) = in_list id e.services || in_lists id es

  contains-visit_services :
      (uri : Str) (ss : List (BackendService P.Float)) (m : UriPrefixMap) (p id : Str)
      → Updates.IsValid m
      → set_contains id (ids_of p (visit_services P uri ss m))
        ≡ (set_contains id (ids_of p m) && not (str_eq uri p && in_list id ss))
  unfolding visit_services
  contains-visit_services uri [] m p id v = ground arith
  contains-visit_services uri (s ∷ ss) m p id v = ground (
    arith,
    contains-visit_services uri ss _ p id (Updates.remove_backend-IsValid uri s m v),
    contains-remove_backend uri s m p id v,
  )

  contains-visit_entries :
      (uri : Str) (es : OrderedMap (Entry P)) (m : UriPrefixMap) (p id : Str)
      → Updates.IsValid m
      → set_contains id (ids_of p (visit_entries P uri es m))
        ≡ (set_contains id (ids_of p m) && not (str_eq uri p && in_lists id es))
  unfolding visit_entries
  contains-visit_entries uri [] m p id v = ground arith
  contains-visit_entries uri ((k, e) ∷ es) m p id v = ground (
    arith,
    contains-visit_entries uri es _ p id (visit_services-IsValid P uri e.services m v),
    contains-visit_services uri e.services m p id v,
  )

  -- After `removeBackend` in a valid state, unless it ends the process, a prefix has the ids that
  -- it had, except that the prefix given as the URI has lost the id of every service listed under
  -- any URI, whether the service is on the removed host or not.
  pub ids_of-remove_backend :
      (r : Reactor) (host : Str) (port : ℤ) (only : Str) (s : Services P) {s' : Services P}
      → IsValid P s
      → remove_backend P r host port only s ≡ some s'
      → (p id : Str)
      → set_contains id (ids_of p s'.prefix_map) ≡ (
          set_contains id (ids_of p s.prefix_map)
          && not (str_eq only p && in_lists id s.services_by_uri))
  unfolding remove_backend
  ids_of-remove_backend r host port only s {s'} v e p id =
      let stays = λ (b : BackendService P.Float). not (is_removed host port only b) in
      elim (Bool-cases (none_left P (map_values (sweep_entry P stays r) s.services_by_uri))) [
        | inl dead ↦ absurd (cc (rw dead at e))
        | inr left ↦
            let same = some-injective _ _ (rw left at e) in
            ap (λ (t : Services P). set_contains id (ids_of p t.prefix_map)) (sym same)
            ∙ contains-visit_entries only s.services_by_uri s.prefix_map p id v.prefixes
      ]
