-- ===== src/Services/Ages.antt =====
-- How many rounds ago the services of a list were announced, and that a sweep takes the oldest ones
-- first.
use mathlib.Core.Path.{subst}
use smartmet_engine_sputnik.Prelude.{
  ℕ, ◌+◌, ◌-◌, ◌%◌, ◌<◌, ◌≤◌, ◌≡◌, sym, inl, inr, Bool, false, ◌&&◌, not, List, [], ◌∷◌, ◌++◌, keep,
  Bool-cases, ℤ, pos, int_eq, int_eq_iff, arith,
}
use smartmet_engine_sputnik.Text.{Str, str_eq}
use smartmet_engine_sputnik.Text.Order.{str_eq_iff}
use smartmet_engine_sputnik.Backend.{BackendService, BackendInfo}
use smartmet_engine_sputnik.Services.{is_latest, is_removed}
use smartmet_engine_sputnik.Services.Alignment.{Aligned, NoneGoes, StaleFirst}

-- How many rounds the number `m` is behind the round `n`; the numbers start again at 65535.
abbrev pub age : ℕ → ℕ → ℕ
age n m = (n + 65535 - m) % 65535

module _ {F : Type 0} where
  -- The services have round numbers, the first is at most `bound` rounds old, and none is older
  -- than one before it.
  abbrev pub Aged : ℕ → ℕ → List (BackendService F) → Type 0
  Aged n bound [] = Unit
  Aged n bound (s ∷ ss) =
      (m : ℕ) × (s.sequence_number ≡ pos m) × (m < 65535) × (age n m ≤ bound) × Aged n (age n m) ss

  pub Aged-le :
      (n bound bound' : ℕ) (ss : List (BackendService F))
      → bound ≤ bound'
      → Aged n bound ss
      → Aged n bound' ss
  Aged-le n bound bound' [] h a = tt
  Aged-le n bound bound' (s ∷ ss) h (m, e, l, k, a) = (m, e, l, omega arith, a)

  -- In the next round each service is a round older.
  pub Aged-next :
      (n bound : ℕ) (ss : List (BackendService F))
      → n < 65535
      → bound < 65534
      → Aged n bound ss
      → Aged ((n + 1) % 65535) (bound + 1) ss
  Aged-next n bound [] r h a = tt
  Aged-next n bound (s ∷ ss) r h (m, e, l, k, a) =
      let older : age ((n + 1) % 65535) m ≡ age n m + 1 = omega arith in
      (
        m,
        e,
        l,
        omega arith,
        subst (λ c. Aged ((n + 1) % 65535) c ss) (sym older)
            (Aged-next n (age n m) ss r (omega arith) a),
      )

  -- A service of the round `n` may be put behind all others.
  pub Aged-append :
      (n bound : ℕ) (ss : List (BackendService F)) (b : BackendService F)
      → n < 65535
      → b.sequence_number ≡ pos n
      → Aged n bound ss
      → Aged n bound (ss ++ b ∷ [])
  Aged-append n bound [] b r e a = (n, e, r, omega arith, tt)
  Aged-append n bound (s ∷ ss) b r e (m, e', l, k, a) =
      (m, e', l, k, Aged-append n (age n m) ss b r e a)

  pub Aged-keep :
      (n bound : ℕ) (p : BackendService F → Bool) (ss : List (BackendService F))
      → Aged n bound ss
      → Aged n bound (keep p ss)
  Aged-keep n bound p [] a = tt
  Aged-keep n bound p (s ∷ ss) (m, e, l, k, a) = elim (Bool-cases (p s)) [
    | inl y ↦ rw y (m, e, l, k, Aged-keep n (age n m) p ss a)
    | inr y ↦ rw y (Aged-le n (age n m) bound (keep p ss) k (Aged-keep n (age n m) p ss a))
  ]

  -- What a sweep for the round `n` leaves is of this round.
  pub Aged-latest :
      (n bound : ℕ) (ss : List (BackendService F))
      → n < 65535
      → Aged n bound ss
      → Aged n 0 (keep (is_latest (pos n)) ss)
  Aged-latest n bound [] r a = tt
  Aged-latest n bound (s ∷ ss) r (m, e, l, k, a) = elim (Bool-cases (is_latest (pos n) s)) [
    | inl y ↦
        let same : m ≡ n = ground (arith, e, y) in
        let new : age n m ≡ 0 = omega arith in
        rw y (
          m,
          e,
          l,
          omega arith,
          subst (λ c. Aged n c (keep (is_latest (pos n)) ss)) (sym new)
              (Aged-latest n (age n m) ss r a),
        )
    | inr y ↦ rw y (Aged-latest n (age n m) ss r a)
  ]

  -- Behind a service of the round `n` no service goes.
  NoneGoes-latest :
      (n : ℕ) (host : Str) (port : ℤ) (ss : List (BackendService F))
      → n < 65535
      → Aged n 0 ss
      → NoneGoes (is_latest (pos n)) host port ss
  NoneGoes-latest n host port [] r a = tt
  NoneGoes-latest n host port (s ∷ ss) r (m, e, l, k, a) =
      let same : m ≡ n = omega arith in
      let old : age n m ≡ 0 = omega arith in
      (ground (arith, e, same), NoneGoes-latest n host port ss r (subst (λ c. Aged n c ss) old a))

  pub StaleFirst-latest :
      (n bound : ℕ) (ss : List (BackendService F))
      → n < 65535
      → Aged n bound ss
      → StaleFirst (is_latest (pos n)) ss
  StaleFirst-latest n bound [] r a = tt
  StaleFirst-latest n bound (s ∷ ss) r (m, e, l, k, a) = elim (Bool-cases (is_latest (pos n) s)) [
    | inl y ↦
        let same : m ≡ n = ground (arith, e, y) in
        let new : age n m ≡ 0 = omega arith in
        rw y (
          NoneGoes-latest n s.backend.name s.backend.port ss r (subst (λ c. Aged n c ss) new a),
          StaleFirst-latest n (age n m) ss r a,
        )
    | inr y ↦ rw y (tt, StaleFirst-latest n (age n m) ss r a)
  ]

  -- When all services of a backend go, whatever their URI, none of them stands behind one that
  -- stays.
  NoneGoes-removed :
      (host host' : Str) (port port' : ℤ) (ss : List (BackendService F))
      → (str_eq host' host && int_eq port' port) ≡ false
      → NoneGoes (λ b. not (is_removed host port [] b)) host' port' ss
  NoneGoes-removed host host' port port' [] h = tt
  NoneGoes-removed host host' port port' (s ∷ ss) h = (
    ground (arith, h, str_eq_iff s.backend.name host', int_eq_iff s.backend.port port'),
    NoneGoes-removed host host' port port' ss h,
  )

  pub StaleFirst-removed :
      (host : Str) (port : ℤ) (ss : List (BackendService F))
      → StaleFirst (λ b. not (is_removed host port [] b)) ss
  StaleFirst-removed host port [] = tt
  StaleFirst-removed host port (s ∷ ss) =
      elim (Bool-cases (str_eq s.backend.name host && int_eq s.backend.port port)) [
        | inl y ↦ rw y (tt, StaleFirst-removed host port ss)
        | inr n ↦ rw n (
          NoneGoes-removed host s.backend.name port s.backend.port ss n,
          StaleFirst-removed host port ss,
        )
      ]

  pub Aligned-append :
      (ss : List (BackendService F)) (infos : List (BackendInfo F)) (s : BackendService F)
      (x : BackendInfo F)
      → x.host_name ≡ s.backend.name
      → x.port ≡ s.backend.port
      → Aligned ss infos
      → Aligned (ss ++ s ∷ []) (infos ++ x ∷ [])
  Aligned-append [] [] s x h p a = (h, p, tt)
  Aligned-append [] (y ∷ infos) s x h p a = absurd a
  Aligned-append (t ∷ ss) [] s x h p a = absurd a
  Aligned-append (t ∷ ss) (y ∷ infos) s x h p a = (a.0, a.1, Aligned-append ss infos s x h p a.2)
