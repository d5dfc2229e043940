-- ===== src/Services/Alignment.antt =====
-- When the index that a forwarder returns means the same backend in the list of services.
use mathlib.Core.Path.{subst, subst₂}
use smartmet_engine_sputnik.Prelude.{
  ℕ, zero, suc, ◌≡◌, refl, sym, inl, inr, Bool, true, false, not, ◌&&◌, ◌||◌, List, [], ◌∷◌, some,
  if◌then◌else◌, get_elem?, keep, Bool-cases, ℤ, int_eq, int_eq_iff, arith,
}
use smartmet_engine_sputnik.Text.{Str, str_eq}
use smartmet_engine_sputnik.Text.Order.{str_eq_iff}
use smartmet_engine_sputnik.Platform.{Platform}
use smartmet_engine_sputnik.Spine.{Reactor}
use smartmet_engine_sputnik.Backend.{BackendService, BackendInfo}
use smartmet_engine_sputnik.Forwarder.{Forwarder, is_backend, erase_backend, remove_backend}
use smartmet_engine_sputnik.Services.{Entry, sweep, sweep_entry}

module _ {F : Type 0} where
  -- The two lists name the same backends in the same order.
  abbrev pub Aligned : List (BackendService F) → List (BackendInfo F) → Type 0
  Aligned [] [] = Unit
  Aligned [] (x ∷ infos) = ⊥
  Aligned (s ∷ ss) [] = ⊥
  Aligned (s ∷ ss) (x ∷ infos) =
      (x.host_name ≡ s.backend.name) × (x.port ≡ s.backend.port) × Aligned ss infos

  -- No service that goes is on the given backend.
  abbrev pub NoneGoes : (BackendService F → Bool) → Str → ℤ → List (BackendService F) → Type 0
  NoneGoes stays host port [] = Unit
  NoneGoes stays host port (s ∷ ss) =
      ((stays s || not (str_eq s.backend.name host && int_eq s.backend.port port)) ≡ true)
      × NoneGoes stays host port ss

  -- Behind a service that stays, none goes that is on the same backend.
  abbrev pub StaleFirst : (BackendService F → Bool) → List (BackendService F) → Type 0
  StaleFirst stays [] = Unit
  StaleFirst stays (s ∷ ss) =
      (if stays s then NoneGoes stays s.backend.name s.backend.port ss else Unit)
      × StaleFirst stays ss

  -- What a sweep leaves of the forwarder's list.
  erased :
      (BackendService F → Bool)
      → List (BackendService F)
      → List (BackendInfo F)
      → List (BackendInfo F)
  erased stays [] infos = infos
  erased stays (s ∷ ss) infos =
      erased stays ss (if stays s then infos else erase_backend s.backend.name s.backend.port infos)

  erased-head :
      (stays : BackendService F → Bool) (ss : List (BackendService F)) (x : BackendInfo F)
      (infos : List (BackendInfo F))
      → NoneGoes stays x.host_name x.port ss
      → erased stays ss (x ∷ infos) ≡ x ∷ erased stays ss infos
  unfolding erased erase_backend
  erased-head stays [] x infos h = refl
  erased-head stays (s ∷ ss) x infos h = elim (Bool-cases (stays s)) [
    | inl y ↦ rw y (erased-head stays ss x infos h.1)
    | inr n ↦
        let other : is_backend s.backend.name s.backend.port x ≡ false = ground (
          arith,
          n,
          h.0,
          str_eq_iff x.host_name s.backend.name,
          str_eq_iff s.backend.name x.host_name,
          int_eq_iff x.port s.backend.port,
          int_eq_iff s.backend.port x.port,
        ) in
        rw (n, other) (erased-head stays ss x _ h.1)
  ]

  erased-Aligned :
      (stays : BackendService F → Bool) (ss : List (BackendService F))
      (infos : List (BackendInfo F))
      → Aligned ss infos
      → StaleFirst stays ss
      → Aligned (keep stays ss) (erased stays ss infos)
  unfolding erased erase_backend
  erased-Aligned stays [] [] a f = tt
  erased-Aligned stays [] (x ∷ infos) a f = absurd a
  erased-Aligned stays (s ∷ ss) [] a f = absurd a
  erased-Aligned stays (s ∷ ss) (x ∷ infos) a f = elim (Bool-cases (stays s)) [
    | inl y ↦
        let g : NoneGoes stays s.backend.name s.backend.port ss = rw y at f.0 in
        let g' : NoneGoes stays x.host_name x.port ss =
          subst₂ (λ h p. NoneGoes stays h p ss) (sym a.0) (sym a.1) g in
        rw y (
          subst (Aligned (s ∷ keep stays ss)) (sym (erased-head stays ss x infos g'))
            (a.0, a.1, erased-Aligned stays ss infos a.2 f.1))
    | inr n ↦
        let same : is_backend s.backend.name s.backend.port x ≡ true = ground (
          arith,
          a.0,
          a.1,
          str_eq_iff x.host_name s.backend.name,
          int_eq_iff x.port s.backend.port,
        ) in
        rw (n, same) (erased-Aligned stays ss infos a.2 f.1)
  ]

module _ (P : Platform) where
  infos-sweep :
      (stays : BackendService P.Float → Bool) (r : Reactor) (ss : List (BackendService P.Float))
      (f : Forwarder P)
      → (sweep P stays r ss f).forwarder.infos ≡ erased stays ss f.infos
  unfolding sweep erased remove_backend
  infos-sweep stays r [] f = refl
  infos-sweep stays r (s ∷ ss) f = elim (Bool-cases (stays s)) [
    | inl y ↦ rw y (infos-sweep stays r ss f)
    | inr n ↦ rw n (infos-sweep stays r ss (remove_backend P r s.backend.name s.backend.port f))
  ]

  services-sweep :
      (stays : BackendService P.Float → Bool) (r : Reactor) (ss : List (BackendService P.Float))
      (f : Forwarder P)
      → (sweep P stays r ss f).services ≡ keep stays ss
  unfolding sweep
  services-sweep stays r [] f = refl
  services-sweep stays r (s ∷ ss) f = rw (services-sweep stays r ss)

  -- If list and forwarder name the same backends in the same order, they do so after a sweep in
  -- which no service goes that stands behind a service on the same backend that stays. (The sweep
  -- removes the first backend of the name from the forwarder, wherever the service stood.)
  pub sweep_entry-Aligned :
      (stays : BackendService P.Float → Bool) (r : Reactor) (e : Entry P)
      → Aligned e.services e.forwarder.infos
      → StaleFirst stays e.services
      → Aligned (sweep_entry P stays r e).services (sweep_entry P stays r e).forwarder.infos
  unfolding sweep_entry
  sweep_entry-Aligned stays r e a f =
      subst₂ Aligned (sym (services-sweep stays r e.services e.forwarder))
        (sym (infos-sweep stays r e.services e.forwarder))
        (erased-Aligned stays e.services e.forwarder.infos a f)

  -- Where they name the same backends in the same order, the index that the forwarder returns is
  -- that of a service on the backend which the forwarder has chosen.
  pub Aligned-get_elem? :
      (ss : List (BackendService P.Float)) (infos : List (BackendInfo P.Float)) (i : ℕ)
      {s : BackendService P.Float} {x : BackendInfo P.Float}
      → Aligned ss infos
      → get_elem? ss i ≡ some s
      → get_elem? infos i ≡ some x
      → (x.host_name ≡ s.backend.name) × (x.port ≡ s.backend.port)
  Aligned-get_elem? [] [] i a e e' = absurd (cc)
  Aligned-get_elem? [] (y ∷ infos) i a e e' = absurd a
  Aligned-get_elem? (t ∷ ss) [] i a e e' = absurd a
  Aligned-get_elem? (t ∷ ss) (y ∷ infos) zero a e e' = ground (arith, e, e', a.0, a.1)
  Aligned-get_elem? (t ∷ ss) (y ∷ infos) (suc i) a e e' = Aligned-get_elem? ss infos i a.2 e e'
