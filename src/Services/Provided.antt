-- ===== src/Services/Provided.antt =====
-- Which services are listed under a URI, after each operation that changes the lists.
use mathlib.Core.List.{append-nil}
use mathlib.Core.Option.{some-injective}
use smartmet_engine_sputnik.Prelude.{
  ℕ, ◌≡◌, refl, sym, ap, ◌∙◌, inl, inr, Bool, not, List, [], ◌∷◌, ◌++◌, Option, none, some,
  if◌then◌else◌, keep, Bool-cases, Option-cases, ℤ, arith,
}
use smartmet_engine_sputnik.Text.{Str, str_eq}
use smartmet_engine_sputnik.Text.Order.{str_eq_iff}
use smartmet_engine_sputnik.OrderedMap.{OrderedMap, find, map_values}
use smartmet_engine_sputnik.OrderedMap.Laws.{find-assign, find-map_values}
use smartmet_engine_sputnik.Platform.{Platform}
use smartmet_engine_sputnik.Spine.{Reactor}
use smartmet_engine_sputnik.Backend.{BackendService}
use smartmet_engine_sputnik.Services.Entries.{services-sweep_entry}
use smartmet_engine_sputnik.Services.{
  Entry, Services, is_removed, is_latest, sweep_entry, none_left, remove_backend, latest_sequence,
  extend_entry, entry_for, new_forwarder, add_service,
}

module _ (P : Platform) where
  abbrev pub services_of : Option (Entry P) → List (BackendService P.Float)
  services_of none = []
  services_of (some e) = e.services

  abbrev pub provided_in : OrderedMap (Entry P) → Str → List (BackendService P.Float)
  provided_in m uri = services_of (find uri m)

  -- The services that are listed under the URI.
  abbrev pub provided : Services P → Str → List (BackendService P.Float)
  provided s uri = provided_in s.services_by_uri uri

  services_of-swept :
      (stays : BackendService P.Float → Bool) (r : Reactor) (o : Option (Entry P))
      → services_of (elim o [ none ↦ none | some e ↦ some (sweep_entry P stays r e) ])
        ≡ keep stays (services_of o)
  services_of-swept stays r none = refl
  services_of-swept stays r (some e) = services-sweep_entry P stays r e

  provided-swept :
      (stays : BackendService P.Float → Bool) (r : Reactor) (m : OrderedMap (Entry P)) (uri : Str)
      → provided_in (map_values (sweep_entry P stays r) m) uri ≡ keep stays (provided_in m uri)
  provided-swept stays r m uri =
      ap services_of (find-map_values (sweep_entry P stays r) uri m)
      ∙ services_of-swept stays r (find uri m)

  -- After `latestSequence`, every URI lists the services with the given sequence number that it
  -- listed before, in their order, and no others.
  pub provided-latest_sequence :
      (r : Reactor) (n : ℤ) (s : Services P) (uri : Str)
      → provided (latest_sequence P r n s) uri ≡ keep (is_latest n) (provided s uri)
  unfolding latest_sequence
  provided-latest_sequence r n s uri = provided-swept (is_latest n) r s.services_by_uri uri

  -- After `removeBackend`, unless it ends the process, every URI lists the services that are not on
  -- the given host and port or, if a URI is given, do not have this URI.
  pub provided-remove_backend :
      (r : Reactor) (host : Str) (port : ℤ) (only : Str) (s : Services P) {s' : Services P}
      → remove_backend P r host port only s ≡ some s'
      → (uri : Str)
      → provided s' uri ≡ keep (λ b. not (is_removed host port only b)) (provided s uri)
  unfolding remove_backend
  provided-remove_backend r host port only s {s'} e uri =
      let stays = λ (b : BackendService P.Float). not (is_removed host port only b) in
      elim (Bool-cases (none_left P (map_values (sweep_entry P stays r) s.services_by_uri))) [
        | inl dead ↦ absurd (cc (rw dead at e))
        | inr left ↦
            let same = some-injective _ _ (rw left at e) in
            ap (λ (t : Services P). provided t uri) (sym same)
            ∙ provided-swept stays r s.services_by_uri uri
      ]

  services-entry_for :
      (s : Services P) (uri : Str) (now : ℕ) → (entry_for P s uri now).services ≡ provided s uri
  unfolding entry_for new_forwarder
  services-entry_for s uri now = elim (Option-cases (find uri s.services_by_uri)) [
    | inl e ↦ rw (e, entry_for) refl
    | inr (x, e) ↦ rw (e, entry_for) refl
  ]

  -- After `addService`, the URI lists the service behind those that it listed before, and the other
  -- URIs list what they listed.
  pub provided-add_service :
      (r : Reactor) (now : ℕ) (b : BackendService P.Float) (uri : Str) (load : P.Float)
      (throttle : ℕ) (s : Services P) (key : Str)
      → provided (add_service P r now (some b) uri load throttle s).0 key
        ≡ provided s key ++ (if str_eq uri key then b ∷ [] else [])
  unfolding add_service extend_entry
  provided-add_service r now b uri load throttle s key =
      ap services_of
        (find-assign uri key (extend_entry P r b load (entry_for P s uri now)) s.services_by_uri)
      ∙ elim (Bool-cases (str_eq uri key)) [
        | inl e ↦
            ground
              (arith, e, services-entry_for s uri now, ap (provided s) ((str_eq_iff uri key).0 e))
        | inr n ↦ rw n (sym (append-nil (provided s key)))
      ]
