-- ===== src/Services/Abstract/Visits.antt =====
-- The loop of `removeBackend` over all services, by the URIs and what is listed under them.
use smartmet_engine_sputnik.Prelude.{
  ◌≡◌, refl, sym, ap, ◌∙◌, List, [], ◌∷◌, Bool-cases, Option-cases, inl, inr, is_empty, arith,
  Option,
}
use smartmet_engine_sputnik.Text.{Str}
use smartmet_engine_sputnik.Text.Order.{str_eq_iff, str_lt_irrefl, str_eq_refl}
use smartmet_engine_sputnik.OrderedMap.{OrderedMap, find}
use smartmet_engine_sputnik.OrderedMap.Laws.{Above, IsSorted}
use smartmet_engine_sputnik.OrderedMap.Keys.{keys, keys-assign_known}
use smartmet_engine_sputnik.Platform.{Platform}
use smartmet_engine_sputnik.Spine.{Reactor, Request}
use smartmet_engine_sputnik.Outcome.{Result-cases, ok}
use smartmet_engine_sputnik.Backend.{BackendService}
use smartmet_engine_sputnik.PrefixMap.{UriPrefixMap, translate}
use smartmet_engine_sputnik.Forwarder.{get_backend}
use smartmet_engine_sputnik.Services.Provided.{provided_in}
use smartmet_engine_sputnik.Services.{
  Entry, Services, visit_services, visit_entries, get_service, choose, service_at,
}
use smartmet_engine_sputnik.Services.Abstract.{forget_all}

module _ (P : Platform) where
  -- What the map lists under its keys is what the function gives.
  abbrev pub ListsAs : (Str → List (BackendService P.Float)) → OrderedMap (Entry P) → Type 0
  ListsAs f [] = Unit
  ListsAs f ((k, e) ∷ es) = (f k ≡ e.services) × ListsAs f es

  ListsAs-same :
      (f g : Str → List (BackendService P.Float)) (es : OrderedMap (Entry P))
      → ((key : Str) → f key ≡ g key)
      → ListsAs f es
      → ListsAs g es
  ListsAs-same f g [] h a = tt
  ListsAs-same f g ((k, e) ∷ es) h a = (sym (h k) ∙ a.0, ListsAs-same f g es h a.1)

  ListsAs-cons :
      (k : Str) (e : Entry P) (all es : OrderedMap (Entry P))
      → Above k es
      → ListsAs (provided_in P all) es
      → ListsAs (provided_in P ((k, e) ∷ all)) es
  unfolding find
  ListsAs-cons k e all [] v a = tt
  ListsAs-cons k e all ((j, x) ∷ es) v a =
      (ground (arith, v.0, str_eq_iff k j, str_lt_irrefl k, a.0), ListsAs-cons k e all es v.1 a.1)

  ListsAs-provided : (es : OrderedMap (Entry P)) → IsSorted es → ListsAs (provided_in P es) es
  unfolding find
  ListsAs-provided [] v = tt
  ListsAs-provided ((k, e) ∷ es) v =
      (ground (arith, str_eq_refl k), ListsAs-cons k e es es v.0 (ListsAs-provided es v.1))

  visit_entries-ListsAs :
      (only : Str) (f : Str → List (BackendService P.Float)) (es : OrderedMap (Entry P))
      (m : UriPrefixMap)
      → ListsAs f es
      → visit_entries P only es m ≡ forget_all P only (keys es) f m
  unfolding visit_entries
  visit_entries-ListsAs only f [] m a = refl
  visit_entries-ListsAs only f ((k, e) ∷ es) m a =
      visit_entries-ListsAs only f es _ a.1
      ∙ ap (λ ss. forget_all P only (keys es) f (visit_services P only ss m)) (sym a.0)

  pub visit_entries-forget_all :
      (only : Str) (f : Str → List (BackendService P.Float)) (es : OrderedMap (Entry P))
      (m : UriPrefixMap)
      → IsSorted es
      → ((key : Str) → provided_in P es key ≡ f key)
      → visit_entries P only es m ≡ forget_all P only (keys es) f m
  visit_entries-forget_all only f es m v h =
      visit_entries-ListsAs only f es m
        (ListsAs-same (provided_in P es) f es h (ListsAs-provided es v))

  -- `getService` keeps the URIs and the prefixes.
  pub get_service-same :
      (r : Reactor) (request : Request) (s : Services P) {answer : Option (BackendService P.Float)}
      {s' : Services P}
      → IsSorted s.services_by_uri
      → get_service P r request s ≡ ok (answer, s')
      → (keys s'.services_by_uri ≡ keys s.services_by_uri) × (s'.prefix_map ≡ s.prefix_map)
  unfolding get_service choose
  get_service-same r request s {s' = s'} v c =
      elim (Option-cases (find (translate s.prefix_map request.resource) s.services_by_uri)) [
        | inl e ↦
            let same : s ≡ s' = ground (arith, e, c) in
            (
              ap (λ (t : Services P). keys t.services_by_uri) (sym same),
              ap (λ (t : Services P). t.prefix_map) (sym same),
            )
        | inr (old, e) ↦ elim (Bool-cases (is_empty old.services)) [
          | inl nil ↦
              let same : s ≡ s' = ground (arith, e, nil, c) in
              (
                ap (λ (t : Services P). keys t.services_by_uri) (sym same),
                ap (λ (t : Services P). t.prefix_map) (sym same),
              )
          | inr filled ↦ elim (Result-cases (get_backend P r request old.forwarder)) [
            | inl ((i, f), run) ↦ elim (Result-cases (service_at P old.services i)) [
              | inl (b, at) ↦ (
                ground (
                  arith,
                  e,
                  filled,
                  run,
                  at,
                  c,
                  keys-assign_known (translate s.prefix_map request.resource)
                      (record old { forwarder = f }) s.services_by_uri v e,
                ),
                ground (arith, e, filled, run, at, c),
              )
              | inr (x, at) ↦ absurd (ground (arith, e, filled, run, at, c))
            ]
            | inr (x, run) ↦ absurd (ground (arith, e, filled, run, c))
          ]
        ]
      ]
