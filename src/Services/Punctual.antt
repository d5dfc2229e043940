-- ===== src/Services/Punctual.antt =====
-- The registry of a frontend that receives replies in their round only: lists and forwarders stay
-- aligned, and the service that is returned is on the backend that the forwarder has chosen.
use smartmet_engine_sputnik.Services.Answers.{services_for}
use mathlib.Core.Option.{some-injective}
use mathlib.Core.Path.{subst}
use smartmet_engine_sputnik.Prelude.{
  ℕ, ◌+◌, ◌%◌, ◌<◌, ◌≤◌, ◌≡◌, refl, sym, inl, inr, false, not, [], ◌∷◌, Option, none, some,
  is_empty, get_elem?, get_elem?-lt, Bool-cases, Option-cases, ℤ, pos, arith,
}
use smartmet_engine_sputnik.Text.{Str}
use smartmet_engine_sputnik.OrderedMap.{OrderedMap, find, assign, map_values}
use smartmet_engine_sputnik.OrderedMap.Laws.{
  AllValues, AllValues-assign, AllValues-map, AllValues-map_values, AllValues-find,
}
use smartmet_engine_sputnik.Platform.{Platform, IsRandom}
use smartmet_engine_sputnik.Spine.{Reactor, Request}
use smartmet_engine_sputnik.Outcome.{ok, Returns}
use smartmet_engine_sputnik.Backend.{BackendService, BackendInfo}
use smartmet_engine_sputnik.PrefixMap.{translate}
use smartmet_engine_sputnik.Forwarder.{Forwarder, add_backend, get_backend}
use smartmet_engine_sputnik.Forwarder.Range.{get_backend-InRange}
use smartmet_engine_sputnik.Services.Ages.{
  Aged, Aged-le, Aged-next, Aged-append, Aged-keep, Aged-latest, StaleFirst-latest,
  StaleFirst-removed, Aligned-append,
}
use smartmet_engine_sputnik.Services.Alignment.{Aligned, sweep_entry-Aligned, Aligned-get_elem?}
use smartmet_engine_sputnik.Services.Entries.{IsSynced, services-sweep_entry}
use smartmet_engine_sputnik.Services.Validity.{IsValid, is_empty_nil}
use smartmet_engine_sputnik.Services.{
  Entry, Services, is_latest, is_removed, sweep_entry, extend_entry, entry_for, new_forwarder,
  add_known_service, add_service, latest_sequence, remove_backend, none_left, service_at, choose,
  get_service,
}

module _ (P : Platform) where
  -- List and forwarder name the same backends in the same order, the oldest services first.
  pub record IsPunctual (n bound : ℕ) (e : Entry P) : Type 0 where
    pub aligned : Aligned e.services e.forwarder.infos
    pub aged : Aged n bound e.services

  -- So it is for every URI.
  abbrev pub ArePunctual : ℕ → ℕ → Services P → Type 0
  ArePunctual n bound s = AllValues (IsPunctual n bound) s.services_by_uri

  map-IsPunctual :
      (n n' bound bound' : ℕ) (m : OrderedMap (Entry P))
      → ((e : Entry P) → Aged n bound e.services → Aged n' bound' e.services)
      → AllValues (IsPunctual n bound) m
      → AllValues (IsPunctual n' bound') m
  map-IsPunctual n n' bound bound' [] f a = tt
  map-IsPunctual n n' bound bound' ((k, e) ∷ m) f (h, a) =
      (record { aligned = h.aligned; aged = f e h.aged }, map-IsPunctual n n' bound bound' m f a)

  pub ArePunctual-le :
      (n bound bound' : ℕ) (s : Services P)
      → bound ≤ bound'
      → ArePunctual n bound s
      → ArePunctual n bound' s
  ArePunctual-le n bound bound' s h =
      map-IsPunctual n n bound bound' s.services_by_uri (λ e. Aged-le n bound bound' e.services h)

  pub ArePunctual-next :
      (n bound : ℕ) (s : Services P)
      → n < 65535
      → bound < 65534
      → ArePunctual n bound s
      → ArePunctual ((n + 1) % 65535) (bound + 1) s
  ArePunctual-next n bound s r h =
      map-IsPunctual n ((n + 1) % 65535) bound (bound + 1) s.services_by_uri
        (λ e. Aged-next n bound e.services r h)

  entry_for-IsPunctual :
      (n bound : ℕ) (s : Services P) (uri : Str) (now : ℕ)
      → ArePunctual n bound s
      → IsPunctual n bound (entry_for P s uri now)
  unfolding entry_for
  entry_for-IsPunctual n bound s uri now a = elim (Option-cases (find uri s.services_by_uri)) [
    | inl e ↦ rw (e, entry_for) (unfold new_forwarder in record { aligned = tt; aged = tt })
    | inr (old, e) ↦
        rw (e, entry_for) (AllValues-find (IsPunctual n bound) uri s.services_by_uri a e)
  ]

  extend_entry-IsPunctual :
      (n bound : ℕ) (r : Reactor) (b : BackendService P.Float) (load : P.Float) (e : Entry P)
      → n < 65535
      → b.sequence_number ≡ pos n
      → IsPunctual n bound e
      → IsPunctual n bound (extend_entry P r b load e)
  unfolding extend_entry add_backend
  extend_entry-IsPunctual n bound r b load e h q v = record {
    aligned = Aligned-append e.services e.forwarder.infos b _ refl refl v.aligned;
    aged = Aged-append n bound e.services b h q v.aged;
  }

  -- A service of this round may be added.
  pub add_service-ArePunctual :
      (n bound : ℕ) (r : Reactor) (now : ℕ) (b : BackendService P.Float) (uri : Str)
      (load : P.Float) (throttle : ℕ) (s : Services P)
      → n < 65535
      → b.sequence_number ≡ pos n
      → ArePunctual n bound s
      → ArePunctual n bound (add_service P r now (some b) uri load throttle s).0
  unfolding add_service add_known_service
  add_service-ArePunctual n bound r now b uri load throttle s h q a =
      AllValues-assign (IsPunctual n bound) uri _ s.services_by_uri
        (extend_entry-IsPunctual n bound r b load _ h q (entry_for-IsPunctual n bound s uri now a))
        a

  -- After the services of other rounds have gone, all are of this round.
  pub latest_sequence-ArePunctual :
      (n bound : ℕ) (r : Reactor) (s : Services P)
      → n < 65535
      → ArePunctual n bound s
      → ArePunctual n 0 (latest_sequence P r (pos n) s)
  unfolding latest_sequence
  latest_sequence-ArePunctual n bound r s h a =
      AllValues-map (IsPunctual n bound) (IsPunctual n 0) (sweep_entry P (is_latest (pos n)) r)
        (λ e v. record {
          aligned =
              sweep_entry-Aligned P (is_latest (pos n)) r e v.aligned
                (StaleFirst-latest n bound e.services h v.aged);
          aged =
              subst (Aged n 0) (sym (services-sweep_entry P (is_latest (pos n)) r e))
                (Aged-latest n bound e.services h v.aged);
        })
        s.services_by_uri a

  -- All services of a backend may be removed.
  pub remove_backend-ArePunctual :
      (n bound : ℕ) (r : Reactor) (host : Str) (port : ℤ) (s : Services P) {s' : Services P}
      → ArePunctual n bound s
      → remove_backend P r host port [] s ≡ some s'
      → ArePunctual n bound s'
  unfolding remove_backend
  remove_backend-ArePunctual n bound r host port s {s'} a e =
      let stays = λ (b : BackendService P.Float). not (is_removed host port [] b) in
      elim (Bool-cases (none_left P (map_values (sweep_entry P stays r) s.services_by_uri))) [
        | inl dead ↦ absurd (cc (rw dead at e))
        | inr left ↦ subst (ArePunctual n bound) (some-injective _ _ (rw left at e)) (
            AllValues-map_values (IsPunctual n bound) _
              (λ old v. record {
                aligned =
                    sweep_entry-Aligned P stays r old v.aligned
                      (StaleFirst-removed host port old.services);
                aged =
                    subst (Aged n bound) (sym (services-sweep_entry P stays r old))
                      (Aged-keep n bound stays old.services v.aged);
              })
              s.services_by_uri a)
      ]

  -- The answer is nothing if no service is listed; otherwise it is the service that stands where
  -- the forwarder's index points, and the forwarder has this backend there.
  abbrev pub IsForwarded : Reactor → Request → Services P → Option (BackendService P.Float) → Type 0
  IsForwarded r request s none = services_for P s request.resource ≡ []
  IsForwarded r request s (some b) =
      (e : Entry P) × (i : ℕ) × (f : Forwarder P) × (x : BackendInfo P.Float) × (find
          (translate s.prefix_map request.resource) s.services_by_uri
        ≡ some e)
      × (get_backend P r request e.forwarder ≡ ok (i, f))
      × (get_elem? e.services i ≡ some b)
      × (get_elem? e.forwarder.infos i ≡ some x)
      × (x.host_name ≡ b.backend.name)
      × (x.port ≡ b.backend.port)

  choose-forwards :
      IsRandom P
      → (n bound : ℕ) (r : Reactor) (request : Request) (prefix : Str) (e : Entry P)
        (s : Services P)
      → IsSynced P e
      → IsPunctual n bound e
      → is_empty e.services ≡ false
      → ArePunctual n bound s
      → (i : ℕ) × (b : BackendService P.Float) × (f : Forwarder P) × (x : BackendInfo P.Float)
        × (s' : Services P) × (choose P r request prefix e s ≡ ok (some b, s'))
        × (get_backend P r request e.forwarder ≡ ok (i, f))
        × (get_elem? e.services i ≡ some b)
        × (get_elem? e.forwarder.infos i ≡ some x)
        × (x.host_name ≡ b.backend.name)
        × (x.port ≡ b.backend.port)
        × ArePunctual n bound s'
  unfolding choose
  choose-forwards laws n bound r request prefix e s w v full a =
      let ((i, f), run, q) =
        get_backend-InRange P laws r request e.forwarder w.balanced
          (ground (arith, w.in_step.sizes)) in
      let (b, at) = get_elem?-lt e.services i (omega (arith, q.within, w.in_step.sizes)) in
      let (x, at') = get_elem?-lt e.forwarder.infos i q.within in
      let (h, p) = Aligned-get_elem? P e.services e.forwarder.infos i v.aligned at at' in
      (
        i,
        b,
        f,
        x,
        record s { services_by_uri = assign prefix (record e { forwarder = f }) s.services_by_uri },
        rw run (unfold service_at in rw (at, service_at)),
        run,
        at,
        at',
        h,
        p,
        AllValues-assign (IsPunctual n bound) prefix _ s.services_by_uri
            (record {
              aligned = subst (Aligned e.services) (sym q.same_infos) v.aligned;
              aged = v.aged;
            })
            a,
      )

  -- In a valid state with lists and forwarders aligned, `getService` returns such an answer, and
  -- leaves them aligned.
  pub get_service-IsForwarded :
      IsRandom P
      → (n bound : ℕ) (r : Reactor) (request : Request) (s : Services P) → IsValid P s
      → ArePunctual n bound s
      → Returns
          (get_service P r request s)
          (λ (answer, s'). IsForwarded r request s answer × ArePunctual n bound s')
  unfolding get_service
  get_service-IsForwarded laws n bound r request s v a =
      elim (Option-cases (find (translate s.prefix_map request.resource) s.services_by_uri)) [
        | inl e ↦ ((none, s), rw (e, get_service) refl, (rw (e, services_for) refl, a))
        | inr (old, e) ↦ elim (Bool-cases (is_empty old.services)) [
          | inl nil ↦ (
            (none, s),
            rw (e, get_service) (rw nil refl),
            (rw (e, services_for) (is_empty_nil old.services nil), a),
          )
          | inr full ↦
              let (i, b, f, x, s', run, chosen, at, at', h, p, a') =
                choose-forwards laws n bound r request (translate s.prefix_map request.resource) old
                  s (AllValues-find (IsSynced P) _ s.services_by_uri v.synced e)
                  (AllValues-find (IsPunctual n bound) _ s.services_by_uri a e) full a in
              (
                (some b, s'),
                rw (e, get_service) (rw full run),
                ((old, i, f, x, e, chosen, at, at', h, p), a'),
              )
        ]
      ]
