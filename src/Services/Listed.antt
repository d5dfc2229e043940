-- ===== src/Services/Listed.antt =====
-- A property of each service that is listed, together with the URI that it is listed under, and the
-- operations that keep it.
use smartmet_engine_sputnik.Services.Answers.{get_service-Answers, services_for}
use mathlib.Core.List.{Memᴰ}
use mathlib.Core.Option.{some-injective}
use mathlib.Core.Path.{subst}
use smartmet_engine_sputnik.Prelude.{
  get_elem?-Mem, All-keep, All-append, ℕ, ◌≡◌, refl, sym, ap, ◌∙◌, inl, inr, ◌⊎◌, not, List, [],
  Option, none, some, is_empty, get_elem?, All, Bool-cases, Option-cases, ℤ, arith,
}
use smartmet_engine_sputnik.Text.{Str, str_eq}
use smartmet_engine_sputnik.Text.Order.{str_eq_iff}
use smartmet_engine_sputnik.OrderedMap.{find, assign}
use smartmet_engine_sputnik.OrderedMap.Laws.{find-assign}
use smartmet_engine_sputnik.Platform.{Platform, IsRandom}
use smartmet_engine_sputnik.Spine.{Reactor, Request}
use smartmet_engine_sputnik.Outcome.{Returns, Result-cases, ok}
use smartmet_engine_sputnik.Backend.{BackendService}
use smartmet_engine_sputnik.PrefixMap.{translate}
use smartmet_engine_sputnik.Forwarder.{Forwarder, get_backend}
use smartmet_engine_sputnik.Services.Validity.{IsValid}
use smartmet_engine_sputnik.Services.Provided.{
  provided, services_of, provided-latest_sequence, provided-remove_backend, provided-add_service,
}
use smartmet_engine_sputnik.Services.{
  Entry, Services, is_removed, is_latest, remove_backend, latest_sequence, add_service, service_at,
  choose, get_service,
}

module _ (P : Platform) where
  -- What `getService` answers is listed, and the lists stay as they are.
  pub record IsListed (r : Reactor) (request : Request) (s : Services P)
      (answer : Option (BackendService P.Float)) (s' : Services P) : Type 0 where
    pub same : (key : Str) → provided P s' key ≡ provided P s key
    pub same_info : s'.info_requests ≡ s.info_requests
    pub same_state : s'.sentinels ≡ s.sentinels
    pub from_list :
        (b : BackendService P.Float)
        → answer ≡ some b
        → Memᴰ b (provided P s (translate s.prefix_map request.resource))

  service_at-Mem :
      (ss : List (BackendService P.Float)) (i : ℕ) {b : BackendService P.Float}
      → service_at P ss i ≡ ok b
      → Memᴰ b ss
  unfolding service_at
  service_at-Mem ss i e = elim (Option-cases (get_elem? ss i)) [
    | inl n ↦ absurd (ground (arith, n, e))
    | inr (x, h) ↦ get_elem?-Mem ss i (ground (arith, h, e))
  ]

  provided-stored :
      (prefix : Str) (e : Entry P) (f : Forwarder P) (s : Services P)
      → find prefix s.services_by_uri ≡ some e
      → (key : Str)
      → provided P
          (record s {
            services_by_uri = assign prefix (record e { forwarder = f }) s.services_by_uri;
          })
          key
        ≡ provided P s key
  provided-stored prefix e f s h key =
      ap (services_of P) (find-assign prefix key (record e { forwarder = f }) s.services_by_uri)
      ∙ elim (Bool-cases (str_eq prefix key)) [
        | inl y ↦ rw y (
            sym (
              ap (services_of P)
                (ap (λ k. find k s.services_by_uri) (sym ((str_eq_iff prefix key).0 y)) ∙ h)))
        | inr n ↦ rw n refl
      ]

  choose-IsListed :
      (r : Reactor) (request : Request) (e : Entry P) (s : Services P)
      {answer : Option (BackendService P.Float)} {s' : Services P}
      → find (translate s.prefix_map request.resource) s.services_by_uri ≡ some e
      → choose P r request (translate s.prefix_map request.resource) e s ≡ ok (answer, s')
      → IsListed r request s answer s'
  unfolding choose
  choose-IsListed r request e s {answer = answer} {s' = s'} h c =
      elim (Result-cases (get_backend P r request e.forwarder)) [
        | inl ((i, f), run) ↦ elim (Result-cases (service_at P e.services i)) [
          | inl (b, at) ↦
              let stored : Services P = record s {
                services_by_uri =
                    assign (translate s.prefix_map request.resource) (record e { forwarder = f })
                      s.services_by_uri;
              } in
              let kept : stored ≡ s' = ground (arith, run, at, c) in
              let given : some b ≡ answer = ground (arith, run, at, c) in
              let there : Memᴰ b (provided P s (translate s.prefix_map request.resource)) =
                subst (Memᴰ b) (sym (ap (services_of P) h)) (service_at-Mem e.services i at) in
              record {
                same = λ key.
                    ap (λ (u : Services P). provided P u key) (sym kept)
                    ∙ provided-stored (translate s.prefix_map request.resource) e f s h key;
                same_info = ap (λ (u : Services P). u.info_requests) (sym kept);
                same_state = ap (λ (u : Services P). u.sentinels) (sym kept);
                from_list = λ b' q.
                    subst (λ x. Memᴰ x (provided P s (translate s.prefix_map request.resource)))
                      (some-injective _ _ (given ∙ q)) there;
              }
          | inr (x, at) ↦ absurd (ground (arith, run, at, c))
        ]
        | inr (x, run) ↦ absurd (ground (arith, run, c))
      ]

  unchanged :
      (r : Reactor) (request : Request) (s : Services P) {answer : Option (BackendService P.Float)}
      {s' : Services P}
      → none ≡ answer
      → s ≡ s'
      → IsListed r request s answer s'
  unchanged r request s given kept = record {
    same = λ key. ap (λ (u : Services P). provided P u key) (sym kept);
    same_info = ap (λ (u : Services P). u.info_requests) (sym kept);
    same_state = ap (λ (u : Services P). u.sentinels) (sym kept);
    from_list = λ b q. absurd (cc (given, q));
  }

  pub get_service-IsListed :
      (r : Reactor) (request : Request) (s : Services P) {answer : Option (BackendService P.Float)}
      {s' : Services P}
      → get_service P r request s ≡ ok (answer, s')
      → IsListed r request s answer s'
  unfolding get_service
  get_service-IsListed r request s {answer = answer} {s' = s'} c =
      elim (Option-cases (find (translate s.prefix_map request.resource) s.services_by_uri)) [
        | inl e ↦ unchanged r request s (ground (arith, e, c)) (ground (arith, e, c))
        | inr (old, e) ↦ elim (Bool-cases (is_empty old.services)) [
          | inl nil ↦ unchanged r request s (ground (arith, e, nil, c)) (ground (arith, e, nil, c))
          | inr filled ↦ choose-IsListed r request old s e (ground (arith, e, filled, c))
        ]
      ]

  services_for-provided :
      (s : Services P) (uri : Str)
      → services_for P s uri ≡ provided P s (translate s.prefix_map uri)
  services_for-provided s uri =
      elim (Option-cases (find (translate s.prefix_map uri) s.services_by_uri)) [
        | inl e ↦ rw (e, services_for) refl
        | inr (x, e) ↦ rw (e, services_for) refl
      ]

  -- Nothing is answered if the list is empty, and otherwise one of its services.
  abbrev pub Picks : List (BackendService P.Float) → Option (BackendService P.Float) → Type 0
  Picks ss answer =
      ((answer ≡ none) × (ss ≡ [])) ⊎ ((b : BackendService P.Float) × (answer ≡ some b) × Memᴰ b ss)

  pub get_service-Picks :
      IsRandom P
      → (r : Reactor) (request : Request) (s : Services P) → IsValid P s
      → Returns
          (get_service P r request s)
          (λ (answer, s'). Picks (provided P s (translate s.prefix_map request.resource)) answer)
  get_service-Picks laws r request s v =
      let ((answer, s'), run, found) = get_service-Answers P laws r request s v in
      let lists = services_for-provided s request.resource in
      (
        (answer, s'),
        run,
        elim found.1 [
          | inl nothing ↦ inl (nothing.0, sym lists ∙ nothing.1)
          | inr (k, x, given, at) ↦
              inr (x, given, get_elem?-Mem _ k (ap (λ xs. get_elem? xs k) (sym lists) ∙ at))
        ],
      )

  module _ (O : Str → BackendService P.Float → Type 0) where
    -- Every service that is listed has the property `O`.
    abbrev pub Lists : Services P → Type 0
    Lists s = (key : Str) → All (O key) (provided P s key)

    pub add_service-Lists :
        (r : Reactor) (now : ℕ) (b : BackendService P.Float) (uri : Str) (load : P.Float)
        (throttle : ℕ) (s : Services P)
        → O uri b
        → Lists s
        → Lists (add_service P r now (some b) uri load throttle s).0
    add_service-Lists r now b uri load throttle s o a key =
        subst (All (O key)) (sym (provided-add_service P r now b uri load throttle s key)) (
          All-append (O key) (provided P s key) _ (a key) (elim (Bool-cases (str_eq uri key)) [
            | inl e ↦ rw e (subst (λ u. O u b) ((str_eq_iff uri key).0 e) o, tt)
            | inr e ↦ rw e tt
          ]))

    pub latest_sequence-Lists :
        (r : Reactor) (n : ℤ) (s : Services P) → Lists s → Lists (latest_sequence P r n s)
    latest_sequence-Lists r n s a key =
        subst (All (O key)) (sym (provided-latest_sequence P r n s key))
          (All-keep (O key) (is_latest n) (provided P s key) (a key))

    pub remove_backend-Lists :
        (r : Reactor) (host : Str) (port : ℤ) (only : Str) (s : Services P) {s' : Services P}
        → remove_backend P r host port only s ≡ some s'
        → Lists s
        → Lists s'
    remove_backend-Lists r host port only s e a key =
        subst (All (O key)) (sym (provided-remove_backend P r host port only s e key))
          (All-keep (O key) (λ b. not (is_removed host port only b)) (provided P s key) (a key))

    pub get_service-Lists :
        (r : Reactor) (request : Request) (s : Services P)
        {answer : Option (BackendService P.Float)} {s' : Services P}
        → get_service P r request s ≡ ok (answer, s')
        → Lists s
        → Lists s'
    get_service-Lists r request s e a key =
        let l = get_service-IsListed r request s e in subst (All (O key)) (sym (l.same key)) (a key)
