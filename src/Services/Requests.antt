-- ===== src/Services/Requests.antt =====
-- The info requests of the registry, and what the two queries say of them.
use mathlib.Core.List.{append-nil}
use smartmet_engine_sputnik.Prelude.{
  ◌≡◌, refl, sym, ap, ◌∙◌, inl, inr, not, ◌||◌, List, [], ◌∷◌, ◌++◌, Option, none, some, map,
  if◌then◌else◌, is_empty, keep, Bool-cases, Option-cases, ℤ, arith,
}
use smartmet_engine_sputnik.Text.{Str, str_eq}
use smartmet_engine_sputnik.Text.Order.{str_eq_iff}
use smartmet_engine_sputnik.OrderedMap.{OrderedMap, find, set_insert, set_contains}
use smartmet_engine_sputnik.OrderedMap.Laws.{IsSorted, find-Above, find-assign, find-map_values}
use smartmet_engine_sputnik.OrderedMap.Sets.{set_contains-set_insert}
use smartmet_engine_sputnik.Platform.{Platform}
use smartmet_engine_sputnik.Spine.{Reactor}
use smartmet_engine_sputnik.Backend.{BackendInfoRequest}
use smartmet_engine_sputnik.Services.{
  Services, is_latest_request, latest_sequence, add_backend_info_request,
}
use smartmet_engine_sputnik.Services.Validity.{IsValid}
use smartmet_engine_sputnik.Services.Reports.{
  row_of, get_info_request_backend_list, names_provided, get_info_request_names,
}

is_empty-map : {A B : Type 0} (f : A → B) (xs : List A) → is_empty (map f xs) ≡ is_empty xs
is_empty-map f [] = refl
is_empty-map f (x ∷ xs) = refl

module _ (P : Platform) where
  abbrev pub requests_of :
      Option (List (BackendInfoRequest P.Float)) → List (BackendInfoRequest P.Float)
  requests_of none = []
  requests_of (some qs) = qs

  -- The info requests of this name.
  abbrev pub requests : Services P → Str → List (BackendInfoRequest P.Float)
  requests s name = requests_of (find name s.info_requests)

  pub listed-requests :
      (name : Str) (s : Services P)
      → get_info_request_backend_list P name s ≡ map (λ q. row_of q.backend) (requests s name)
  unfolding get_info_request_backend_list
  listed-requests name s = elim (Option-cases (find name s.info_requests)) [
    | inl e ↦ rw (e, get_info_request_backend_list) refl
    | inr (qs, e) ↦ rw (e, get_info_request_backend_list) refl
  ]

  contains-names_provided :
      (name : Str) (m : OrderedMap (List (BackendInfoRequest P.Float))) (names : List Str)
      → IsSorted m
      → set_contains name (names_provided P m names)
        ≡ (set_contains name names || not (is_empty (requests_of (find name m))))
  unfolding names_provided find
  contains-names_provided name [] names v = ground arith
  contains-names_provided name ((j, qs) ∷ m) names v = ground (
    arith,
    str_eq_iff j name,
    find-Above name m,
    set_contains-set_insert j name names,
    contains-names_provided name m names v.1,
    contains-names_provided name m (set_insert j names) v.1,
  )

  -- In a valid state `getInfoRequestNames` has a name exactly if `getInfoRequestBackendList` has a
  -- backend for it.
  pub names-backend_list :
      (name : Str) (s : Services P)
      → IsValid P s
      → set_contains name (get_info_request_names P s)
        ≡ not (is_empty (get_info_request_backend_list P name s))
  unfolding get_info_request_names set_contains
  names-backend_list name s v = ground (
    arith,
    contains-names_provided name s.info_requests [] v.queries,
    listed-requests name s,
    is_empty-map (λ (q : BackendInfoRequest P.Float). row_of q.backend) (requests s name),
  )

  pub requests-latest_sequence :
      (r : Reactor) (n : ℤ) (s : Services P) (name : Str)
      → requests (latest_sequence P r n s) name ≡ keep (is_latest_request n) (requests s name)
  unfolding latest_sequence
  requests-latest_sequence r n s name =
      ap requests_of (find-map_values (keep (is_latest_request n)) name s.info_requests)
      ∙ elim (Option-cases (find name s.info_requests)) [
        | inl e ↦ rw e refl
        | inr (qs, e) ↦ rw e refl
      ]

  pub requests-add :
      (q : BackendInfoRequest P.Float) (s : Services P) (name : Str)
      → requests (add_backend_info_request P (some q) s).0 name
        ≡ requests s name ++ (if str_eq q.name name then q ∷ [] else [])
  unfolding add_backend_info_request
  requests-add q s name =
      ap requests_of (find-assign q.name name _ s.info_requests)
      ∙ elim (Bool-cases (str_eq q.name name)) [
        | inl e ↦ elim (Option-cases (find q.name s.info_requests)) [
          | inl h ↦ ground (arith, e, h, ap (requests s) ((str_eq_iff q.name name).0 e))
          | inr (qs, h) ↦ ground (arith, e, h, ap (requests s) ((str_eq_iff q.name name).0 e))
        ]
        | inr n ↦ rw n (sym (append-nil (requests s name)))
      ]

  -- After a request has been added and `latestSequence` has run, `getInfoRequestBackendList` has,
  -- for every name, the backends of the requests with the given sequence number: those that it
  -- listed before, and then the new one if it has this name and number.
  pub backend_list-round :
      (r : Reactor) (n : ℤ) (q : BackendInfoRequest P.Float) (s : Services P) (name : Str)
      → get_info_request_backend_list P name
          (latest_sequence P r n (add_backend_info_request P (some q) s).0)
        ≡ map
            (λ p. row_of p.backend)
            (keep
              (is_latest_request n)
              (requests s name ++ (if str_eq q.name name then q ∷ [] else [])))
  unfolding latest_sequence add_backend_info_request
  backend_list-round r n q s name =
      let s' = (add_backend_info_request P (some q) s).0 in
      listed-requests name (latest_sequence P r n s')
      ∙ ap (map (λ p. row_of p.backend)) (
          requests-latest_sequence r n s' name
          ∙ ap (keep (is_latest_request n)) (requests-add q s name))
