-- ===== src/Services/Answers.antt =====
-- What `getService` answers in a valid state.
use mathlib.Core.Path.{subst}
use smartmet_engine_sputnik.Prelude.{
  ℕ, ◌≡◌, refl, sym, ◌⊎◌, inl, inr, false, List, [], Option, none, some, is_empty, get_elem?,
  get_elem?-lt, Bool-cases, Option-cases, arith,
}
use smartmet_engine_sputnik.Text.{Str}
use smartmet_engine_sputnik.OrderedMap.{find, assign}
use smartmet_engine_sputnik.OrderedMap.Laws.{assign-IsSorted, AllValues-assign, AllValues-find}
use smartmet_engine_sputnik.Platform.{Platform, IsRandom}
use smartmet_engine_sputnik.Spine.{Reactor, Request}
use smartmet_engine_sputnik.Outcome.{ok, Returns}
use smartmet_engine_sputnik.Backend.{BackendService}
use smartmet_engine_sputnik.PrefixMap.{translate}
use smartmet_engine_sputnik.Forwarder.Range.{get_backend-InRange}
use smartmet_engine_sputnik.Services.Entries.{InStep, nothing_before, IsSynced}
use smartmet_engine_sputnik.Services.{Entry, Services, service_at, choose, get_service}
use smartmet_engine_sputnik.Services.Validity.{IsValid, is_empty_nil}

module _ (P : Platform) where
  -- The services of the URI's prefix.
  abbrev pub services_for : Services P → Str → List (BackendService P.Float)
  services_for s uri = elim (find (translate s.prefix_map uri) s.services_by_uri) [
    | none ↦ []
    | some e ↦ e.services
  ]

  -- What `getService` may answer.
  abbrev pub Answers : Services P → Str → Option (BackendService P.Float) × Services P → Type 0
  Answers s uri (answer, s') =
      IsValid P s'
      × (((answer ≡ none) × (services_for s uri ≡ []) × (s' ≡ s))
          ⊎ ((i : ℕ) × (b : BackendService P.Float) × (answer ≡ some b)
              × (get_elem? (services_for s uri) i ≡ some b)))

  choose-Answers :
      IsRandom P
      → (r : Reactor) (request : Request) (prefix : Str) (e : Entry P) (s : Services P)
      → IsValid P s
      → IsSynced P e
      → is_empty e.services ≡ false
      → (i : ℕ) × (b : BackendService P.Float) × (s' : Services P) × (choose P r request prefix e s
          ≡ ok (some b, s'))
        × (get_elem? e.services i ≡ some b)
        × IsValid P s'
  unfolding choose
  choose-Answers laws r request prefix e s v w n =
      let ((i, f), run, q) =
        get_backend-InRange P laws r request e.forwarder w.balanced
          (ground (arith, w.in_step.sizes)) in
      let (b, at) = get_elem?-lt e.services i (omega (arith, q.within, w.in_step.sizes)) in
      (
        i,
        b,
        record s { services_by_uri = assign prefix (record e { forwarder = f }) s.services_by_uri },
        rw run (unfold service_at in rw (at, service_at)),
        at,
        record {
          uris = assign-IsSorted prefix _ s.services_by_uri v.uris;
          synced =
              AllValues-assign (IsSynced P) prefix _ s.services_by_uri
                (record {
                  in_step = subst (InStep nothing_before 0 e.services) (sym q.same_infos) w.in_step;
                  balanced = q.balanced;
                })
                v.synced;
          prefixes = v.prefixes;
          hosts = v.hosts;
          queries = v.queries;
        },
      )

  -- If random draws are in the documented ranges, `getService` returns in a valid state: nothing,
  -- and with no change, exactly if the list of the prefix that the request's URI is translated to
  -- is missing or empty, and otherwise a service of that list, in a valid state. So it neither
  -- throws nor reads out of the range of the list.
  pub get_service-Answers :
      IsRandom P
      → (r : Reactor) (request : Request) (s : Services P) → IsValid P s
      → Returns (get_service P r request s) (Answers s request.resource)
  unfolding get_service
  get_service-Answers laws r request s v =
      elim (Option-cases (find (translate s.prefix_map request.resource) s.services_by_uri)) [
        | inl e ↦ ((none, s), rw (e, get_service), (v, inl (refl, rw (e, services_for) refl, refl)))
        | inr (old, e) ↦ elim (Bool-cases (is_empty old.services)) [
          | inl nil ↦ (
            (none, s),
            rw (e, get_service) (rw nil refl),
            (v, inl (refl, rw (e, services_for) (is_empty_nil old.services nil), refl)),
          )
          | inr filled ↦
              let (i, b, s', run, at, v') =
                choose-Answers laws r request (translate s.prefix_map request.resource) old s v
                  (AllValues-find (IsSynced P) _ s.services_by_uri v.synced e) filled in
              (
                (some b, s'),
                rw (e, get_service) (rw filled run),
                (v', inr (i, b, refl, rw (e, services_for) at)),
              )
        ]
      ]
