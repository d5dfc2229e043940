-- ===== src/Services/Hosts.antt =====
-- Which backends count as alive.
use smartmet_engine_sputnik.Prelude.{
  ℕ, ◌≡◌, refl, sym, ap, ◌∙◌, inl, inr, Bool, true, false, ◌&&◌, Option, none, some, if◌then◌else◌,
  Bool-cases, Option-cases, ℤ, int_eq, int_eq_iff, arith,
}
use smartmet_engine_sputnik.Text.{Str, str_eq}
use smartmet_engine_sputnik.Text.Order.{str_eq_iff}
use smartmet_engine_sputnik.Text.Decimal.{name_number_injective}
use smartmet_engine_sputnik.OrderedMap.{OrderedMap, find, assign, erase, has_key}
use smartmet_engine_sputnik.OrderedMap.Laws.{
  assign-IsSorted, find-assign, find-erase, has_key-none, has_key-some,
}
use smartmet_engine_sputnik.Platform.{Platform}
use smartmet_engine_sputnik.Spine.{Reactor}
use smartmet_engine_sputnik.Sentinel.{BackendSentinel, new_sentinel, get_alive, set_alive}
use smartmet_engine_sputnik.Backend.{BackendService}
use smartmet_engine_sputnik.Services.Entries.{on_backend}
use smartmet_engine_sputnik.Services.Validity.{IsValid}
use smartmet_engine_sputnik.Services.{
  Services, sentinel_name, renew_sentinel, add_service, add_known_service, query_backend_alive,
  update_sentinel, set_backend_alive,
}

-- The keys of two backends are equal only if the backends are.
pub sentinel_name-eq :
    (h h' : Str) (p p' : ℤ)
    → str_eq (sentinel_name h p) (sentinel_name h' p') ≡ (str_eq h h' && int_eq p p')
unfolding sentinel_name
sentinel_name-eq h h' p p' =
    let both = str_eq_iff (sentinel_name h p) (sentinel_name h' p') in
    elim (Bool-cases (str_eq (sentinel_name h p) (sentinel_name h' p'))) [
      | inl e ↦
          let (a, b) = name_number_injective h h' p p' (both.0 e) in
          e ∙ ground (arith, (str_eq_iff h h').1 a, (int_eq_iff p p').1 b)
      | inr n ↦ elim (Bool-cases (str_eq h h' && int_eq p p')) [
        | inl y ↦
            let a : h ≡ h' = ground (arith, str_eq_iff h h') in
            let b : p ≡ p' = ground (arith, int_eq_iff p p') in cc (sym (both.1 (cc (a, b))) ∙ n)
        | inr m ↦ n ∙ sym m
      ]
    ]

pub alive_of : Option BackendSentinel → Bool
alive_of none = false
alive_of (some sentinel) = get_alive sentinel

module _ (P : Platform) where
  pub query-alive_of :
      (host : Str) (port : ℤ) (s : Services P)
      → query_backend_alive P host port s ≡ alive_of (find (sentinel_name host port) s.sentinels)
  unfolding query_backend_alive alive_of
  query-alive_of host port s = elim (Option-cases (find (sentinel_name host port) s.sentinels)) [
    | inl e ↦ rw (e, query_backend_alive, alive_of)
    | inr (x, e) ↦ rw (e, query_backend_alive, alive_of)
  ]

  pub find-renew_sentinel :
      (name key : Str) (throttle : ℕ) (s : Services P)
      → IsValid P s
      → find key (renew_sentinel P name throttle s.sentinels)
        ≡ (if str_eq name key then some (new_sentinel throttle) else find key s.sentinels)
  unfolding renew_sentinel
  find-renew_sentinel name key throttle s v = elim (Option-cases (find name s.sentinels)) [
    | inl e ↦ rw (e, renew_sentinel) (find-assign name key (new_sentinel throttle) s.sentinels)
    | inr (x, e) ↦
        rw (e, renew_sentinel)
          (ground (
            arith,
            find-assign name key (new_sentinel throttle) (erase name s.sentinels),
            find-erase name key s.sentinels v.hosts,
          ))
  ]

  -- After `addService` the backend of the service counts as alive, since its sentinel is new, and
  -- the other backends as they did.
  alive-add_service :
      (r : Reactor) (now : ℕ) (b : BackendService P.Float) (uri : Str) (load : P.Float)
      (throttle : ℕ) (s : Services P) (host : Str) (port : ℤ)
      → IsValid P s
      → query_backend_alive P host port (add_service P r now (some b) uri load throttle s).0
        ≡ (if on_backend host port b then true else query_backend_alive P host port s)
  unfolding add_service add_known_service alive_of get_alive new_sentinel
  alive-add_service r now b uri load throttle s host port v =
      let name = sentinel_name b.backend.name b.backend.port in
      let key = sentinel_name host port in
      let read = query-alive_of host port (add_service P r now (some b) uri load throttle s).0 in
      let found = find-renew_sentinel name key throttle s v in
      let same = sentinel_name-eq b.backend.name host b.backend.port port in
      let old = query-alive_of host port s in read ∙ ap alive_of found ∙ ground (arith, same, old)

  -- After `setBackendAlive` the backend counts as alive if it is known, and the other backends as
  -- they did.
  pub alive-set_backend_alive :
      (s : Services P) (host host' : Str) (port port' : ℤ)
      → query_backend_alive P host' port' (set_backend_alive P host port s) ≡ (
          if str_eq host host' && int_eq port port'
          then has_key (sentinel_name host port) s.sentinels
          else query_backend_alive P host' port' s)
  unfolding set_backend_alive alive_of get_alive set_alive
  alive-set_backend_alive s host host' port port' =
      let name = sentinel_name host port in
      let key = sentinel_name host' port' in
      let same = sentinel_name-eq host host' port port' in
      elim (Option-cases (find name s.sentinels)) [
        | inl e ↦
            let unknown = has_key-none name s.sentinels e in
            let dead : query_backend_alive P host port s ≡ false =
              query-alive_of host port s ∙ ap alive_of e in
            rw (e, update_sentinel)
              (elim (Bool-cases (str_eq host host' && int_eq port port')) [
                | inl y ↦
                    let a : host ≡ host' = ground (arith, str_eq_iff host host') in
                    let b : port ≡ port' = ground (arith, int_eq_iff port port') in
                    rw y (cc (a, b, unknown, dead))
                | inr n ↦ rw n refl
              ])
        | inr (x, e) ↦
            let known = has_key-some name s.sentinels e in
            let s' = record s { sentinels = assign name (set_alive x) s.sentinels } in
            let read = query-alive_of host' port' s' in
            let found = find-assign name key (set_alive x) s.sentinels in
            let old = query-alive_of host' port' s in
            rw (e, update_sentinel) (read ∙ ap alive_of found ∙ ground (arith, same, old, known))
      ]

  pub update_sentinel-IsValid :
      (call : BackendSentinel → BackendSentinel) (host : Str) (port : ℤ) (s : Services P)
      → IsValid P s
      → IsValid P (update_sentinel P call host port s)
  unfolding update_sentinel
  update_sentinel-IsValid call host port s v =
      elim (Option-cases (find (sentinel_name host port) s.sentinels)) [
        | inl e ↦ rw (e, update_sentinel) v
        | inr (x, e) ↦
            rw (e, update_sentinel)
              (record {
                uris = v.uris;
                synced = v.synced;
                prefixes = v.prefixes;
                hosts = assign-IsSorted _ (call x) s.sentinels v.hosts;
                queries = v.queries;
              })
      ]

  module _ (Q : Services P → Type 0)
      (free : (s : Services P) (m : OrderedMap BackendSentinel)
        → Q s
        → Q (record s { sentinels = m })) where
    -- What does not depend on the sentinels is kept by a call on one of them.
    pub keep-update_sentinel :
        (call : BackendSentinel → BackendSentinel) (host : Str) (port : ℤ) (s : Services P)
        → Q s
        → Q (update_sentinel P call host port s)
    unfolding update_sentinel
    keep-update_sentinel call host port s q =
        elim (Option-cases (find (sentinel_name host port) s.sentinels)) [
          | inl e ↦ rw (e, update_sentinel) q
          | inr (x, e) ↦ rw (e, update_sentinel) (free s _ q)
        ]
