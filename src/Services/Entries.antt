-- ===== src/Services/Entries.antt =====
-- The list of an entry and its forwarder hold the same backends, as often.
use smartmet_engine_sputnik.Prelude.{
  ℕ, ◌+◌, ◌<◌, ◌≡◌, refl, Bool, true, false, ◌&&◌, List, [], ◌∷◌, length, length-append, count,
  count-append, keep, Bool-cases, inl, inr, ℤ, int_eq, int_eq_iff, arith,
}
use smartmet_engine_sputnik.Text.{Str, str_eq}
use smartmet_engine_sputnik.Text.Order.{str_eq_iff}
use smartmet_engine_sputnik.Platform.{Platform}
use smartmet_engine_sputnik.Spine.{Reactor}
use smartmet_engine_sputnik.Backend.{BackendService, BackendInfo}
use smartmet_engine_sputnik.Forwarder.{
  Forwarder, is_backend, erase_backend, add_backend, remove_backend,
}
use smartmet_engine_sputnik.Forwarder.Range.{
  IsBalanced, add_backend-IsBalanced, remove_backend-IsBalanced,
}
use smartmet_engine_sputnik.Services.{Entry, sweep, sweep_entry, extend_entry}

abbrev pub nothing_before : Str → ℤ → ℕ
nothing_before host port = 0

abbrev pub one_if : Bool → ℕ
one_if true = 1
one_if false = 0

module _ {F : Type 0} where
  -- Is the service on this backend?
  abbrev pub on_backend : Str → ℤ → BackendService F → Bool
  on_backend host port s = str_eq s.backend.name host && int_eq s.backend.port port

  -- Besides the backends that `before` counts, `n` in all, the two lists hold the same backends.
  pub record InStep (before : Str → ℤ → ℕ) (n : ℕ) (ss : List (BackendService F))
      (infos : List (BackendInfo F)) : Type 0 where
    pub counts :
        (host : Str) (port : ℤ)
        → count (is_backend host port) infos ≡ before host port + count (on_backend host port) ss
    pub sizes : length infos ≡ n + length ss

  count-erase_backend :
      (host host' : Str) (port port' : ℤ) (infos : List (BackendInfo F))
      → 0 < count (is_backend host' port') infos
      → count (is_backend host port) infos
        ≡ count (is_backend host port) (erase_backend host' port' infos)
          + one_if (str_eq host' host && int_eq port' port)
  unfolding erase_backend
  count-erase_backend host host' port port' [] h = absurd (omega arith)
  count-erase_backend host host' port port' (x ∷ infos) h = ground (
    arith,
    str_eq_iff x.host_name host,
    str_eq_iff x.host_name host',
    str_eq_iff host' host,
    int_eq_iff x.port port,
    int_eq_iff x.port port',
    int_eq_iff port' port,
    count-erase_backend host host' port port' infos,
  )

  length-erase_backend :
      (host : Str) (port : ℤ) (infos : List (BackendInfo F))
      → 0 < count (is_backend host port) infos
      → length infos ≡ length (erase_backend host port infos) + 1
  unfolding erase_backend
  length-erase_backend host port [] h = absurd (omega arith)
  length-erase_backend host port (x ∷ infos) h =
      ground (arith, length-erase_backend host port infos)

  -- A service that stays is counted as one before.
  pub InStep-stay :
      (before : Str → ℤ → ℕ) (n : ℕ) (s : BackendService F) (ss : List (BackendService F))
      (infos : List (BackendInfo F))
      → InStep before n (s ∷ ss) infos
      → InStep (λ h p. before h p + one_if (on_backend h p s)) (n + 1) ss infos
  InStep-stay before n s ss infos v = record {
    counts = λ h p. ground (arith, v.counts h p);
    sizes = omega (arith, v.sizes);
  }

  pub InStep-back :
      (before : Str → ℤ → ℕ) (n : ℕ) (s : BackendService F) (ss : List (BackendService F))
      (infos : List (BackendInfo F))
      → InStep (λ h p. before h p + one_if (on_backend h p s)) (n + 1) ss infos
      → InStep before n (s ∷ ss) infos
  InStep-back before n s ss infos v = record {
    counts = λ h p. ground (arith, v.counts h p);
    sizes = omega (arith, v.sizes);
  }

  InStep-erase :
      (before : Str → ℤ → ℕ) (n : ℕ) (s : BackendService F) (ss : List (BackendService F))
      (infos : List (BackendInfo F))
      → InStep before n (s ∷ ss) infos
      → InStep before n ss (erase_backend s.backend.name s.backend.port infos)
  InStep-erase before n s ss infos v =
      let name = s.backend.name in
      let port = s.backend.port in
      let here : 0 < count (is_backend name port) infos =
        ground (arith, v.counts name port, str_eq_iff name name, int_eq_iff port port) in
      record {
        counts = λ h p. ground (arith, v.counts h p, count-erase_backend h name p port infos here);
        sizes = omega (arith, v.sizes, length-erase_backend name port infos here);
      }

module _ (P : Platform) where
  -- The forwarder knows the backends of the list, as often, and has a weight for each if it draws
  -- by weights.
  pub record IsSynced (e : Entry P) : Type 0 where
    pub in_step : InStep nothing_before 0 e.services e.forwarder.infos
    pub balanced : IsBalanced P e.forwarder

  infos-remove_backend :
      (r : Reactor) (host : Str) (port : ℤ) (f : Forwarder P)
      → (remove_backend P r host port f).infos ≡ erase_backend host port f.infos
  unfolding remove_backend
  infos-remove_backend r host port f = refl

  sweep-InStep :
      (stays : BackendService P.Float → Bool) (r : Reactor) (before : Str → ℤ → ℕ) (n : ℕ)
      (ss : List (BackendService P.Float)) (f : Forwarder P)
      → InStep before n ss f.infos
      → IsBalanced P f
      → InStep before n (sweep P stays r ss f).services (sweep P stays r ss f).forwarder.infos
        × IsBalanced P (sweep P stays r ss f).forwarder
  unfolding sweep
  sweep-InStep stays r before n [] f v b = (v, b)
  sweep-InStep stays r before n (s ∷ ss) f v b = elim (Bool-cases (stays s)) [
    | inl y ↦
        let ih =
          sweep-InStep stays r (λ h p. before h p + one_if (on_backend h p s)) (n + 1) ss f
            (InStep-stay before n s ss f.infos v) b in
        rw y (InStep-back before n s _ _ ih.0, ih.1)
    | inr out ↦
        let name = s.backend.name in
        let port = s.backend.port in
        rw out (
          sweep-InStep stays r before n ss (remove_backend P r name port f)
            (rw (infos-remove_backend r name port f) (InStep-erase before n s ss f.infos v))
            (remove_backend-IsBalanced P r name port f))
  ]

  -- Sweeping an entry keeps list and forwarder in step.
  pub sweep_entry-IsSynced :
      (stays : BackendService P.Float → Bool) (r : Reactor) (e : Entry P)
      → IsSynced e
      → IsSynced (sweep_entry P stays r e)
  unfolding sweep_entry
  sweep_entry-IsSynced stays r e v =
      let w = sweep-InStep stays r nothing_before 0 e.services e.forwarder v.in_step v.balanced in
      record { in_step = w.0; balanced = w.1 }

  services-sweep :
      (stays : BackendService P.Float → Bool) (r : Reactor) (ss : List (BackendService P.Float))
      (f : Forwarder P)
      → (sweep P stays r ss f).services ≡ keep stays ss
  unfolding sweep
  services-sweep stays r [] f = refl
  services-sweep stays r (s ∷ ss) f = rw (services-sweep stays r ss)

  -- What is left of the list are the services that pass the test, in their order.
  pub services-sweep_entry :
      (stays : BackendService P.Float → Bool) (r : Reactor) (e : Entry P)
      → (sweep_entry P stays r e).services ≡ keep stays e.services
  unfolding sweep_entry
  services-sweep_entry stays r e = services-sweep stays r e.services e.forwarder

  pub extend_entry-IsSynced :
      (r : Reactor) (s : BackendService P.Float) (load : P.Float) (e : Entry P)
      → IsSynced e
      → IsSynced (extend_entry P r s load e)
  unfolding extend_entry add_backend
  extend_entry-IsSynced r s load e v = record {
    in_step = record {
      counts = λ h p. ground (
        arith,
        v.in_step.counts h p,
        count-append (on_backend h p) e.services (s ∷ []),
        count-append (is_backend h p) e.forwarder.infos (
            record {
              host_name = s.backend.name;
              port = s.backend.port;
              load = load;
              throttle_counter = 0;
            }
            ∷ []),
      );
      sizes = omega (
        arith,
        v.in_step.sizes,
        length-append e.services (s ∷ []),
        length-append e.forwarder.infos (
            record {
              host_name = s.backend.name;
              port = s.backend.port;
              load = load;
              throttle_counter = 0;
            }
            ∷ []),
      );
    };
    balanced = add_backend-IsBalanced P r s.backend.name s.backend.port load e.forwarder;
  }
