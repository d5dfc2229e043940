-- ===== src/Locks/Invariant.antt =====
-- What holds of the threads at every time: each is in the order of the locks, and a lock for writing
-- is held alone.
use mathlib.Core.Path.{subst}
use smartmet_engine_sputnik.Prelude.{
  ℕ, ◌<◌, ◌≡◌, ◌≢◌, ◌⊎◌, refl, sym, ap, ◌∙◌, inl, inr, all, ltb, true, false, List, [], ◌∷◌, ◌==◌,
  Bool-cases, arith,
}
use smartmet_engine_sputnik.Text.Order.{str_eq_sound}
use smartmet_engine_sputnik.Locks.{
  Mutex, services, prefix_map, sentinels, pause, forwarder, sentinel, Mode, shared, exclusive,
  Action, acquire, release, access, Call,
}
use smartmet_engine_sputnik.Locks.Calls.{locks_of_all-Leads}
use smartmet_engine_sputnik.Locks.Discipline.{
  Lock, rank, mutex_eq, holds, drop_lock, moved, Leads, covers,
}
use smartmet_engine_sputnik.Locks.Threads.{
  Thread, Threads, set_thread, Thread, opposite, Policy, IsMutex, ready, Step, moves, Run, begin,
  later, start,
}

-- Mutexes that test as equal are the same.
mutex_eq_sound : (m m' : Mutex) → mutex_eq m m' ≡ true → m ≡ m'
unfolding mutex_eq
mutex_eq_sound services services h = refl
mutex_eq_sound prefix_map prefix_map h = refl
mutex_eq_sound sentinels sentinels h = refl
mutex_eq_sound pause pause h = refl
mutex_eq_sound (forwarder u) (forwarder v) h = ap forwarder (str_eq_sound u v h)
mutex_eq_sound (sentinel u) (sentinel v) h = ap sentinel (str_eq_sound u v h)
mutex_eq_sound m m' h = cc

-- Whatever is held for writing can be read.
pub holds-shared :
    (m : Mutex) (kind : Mode) (held : List Lock)
    → holds m kind held ≡ true
    → holds m shared held ≡ true
unfolding holds
holds-shared m kind [] h = cc
holds-shared m shared (l ∷ held) h = h
holds-shared m exclusive (l ∷ held) h = ground (arith, holds-shared m exclusive held)

-- A release gives no new lock.
holds-drop_lock :
    (m m' : Mutex) (kind : Mode) (held : List Lock)
    → holds m kind (drop_lock m' held) ≡ true
    → holds m kind held ≡ true
unfolding holds drop_lock
holds-drop_lock m m' kind [] h = h
holds-drop_lock m m' kind (l ∷ held) h = ground (arith, holds-drop_lock m m' kind held)

-- The only new lock is the one acquired.
holds-moved :
    (a : Action) (m : Mutex) (kind : Mode) (held : List Lock)
    → holds m kind (moved a held) ≡ true
    → (holds m kind held ≡ true)
      ⊎ ((mode : Mode) × (a ≡ acquire m mode) × (covers mode kind ≡ true))
unfolding holds moved
holds-moved (acquire m' mode) m kind held h = elim (Bool-cases (mutex_eq m' m)) [
  | inl same ↦ elim (Bool-cases (covers mode kind)) [
    | inl wide ↦ inr (mode, ap (λ (x : Mutex). acquire x mode) (mutex_eq_sound m' m same), wide)
    | inr thin ↦ inl (ground (arith, thin, same))
  ]
  | inr other ↦ inl (ground (arith, other))
]
holds-moved (release m') m kind held h = inl (holds-drop_lock m m' kind held h)
holds-moved (access m' k) m kind held h = inl h

-- The mutex of a lock that is held stands below one that is allowed.
pub holds-rank :
    (m m' : Mutex) (kind : Mode) (held : List Lock)
    → holds m kind held ≡ true
    → all (λ l. ltb (rank l.mutex) (rank m')) held ≡ true
    → rank m < rank m'
unfolding holds
holds-rank m m' kind [] h above = cc
holds-rank m m' kind (l ∷ held) h above = elim (Bool-cases (mutex_eq l.mutex m)) [
  | inl same ↦
      subst (λ (x : Mutex). rank x < rank m') (mutex_eq_sound l.mutex m same) (ground arith)
  | inr other ↦ ground (arith, other, holds-rank m m' kind held)
]

pub record IsOrderly (n : ℕ) (s : Threads) : Type 0 where
  pub disciplined : (i : ℕ) → Leads (s i).held (s i).rest []
  pub alone :
      (i j : ℕ) (m : Mutex)
      → i < n
      → j < n
      → i ≢ j
      → holds m exclusive (s i).held ≡ true
      → holds m shared (s j).held ≡ false

pub start-IsOrderly : (n : ℕ) (calls : ℕ → List Call) → IsOrderly n (start calls)
unfolding holds
start-IsOrderly n calls = record {
  disciplined = λ i. locks_of_all-Leads (calls i);
  alone = λ i j m below below' other h. cc;
}

-- A lock in the one mode keeps others out in the opposite one.
held-apart :
    (n : ℕ) (s : Threads) (i j : ℕ) (m : Mutex) (kind : Mode)
    → IsOrderly n s
    → i < n
    → j < n
    → i ≢ j
    → holds m kind (s i).held ≡ true
    → holds m (opposite kind) (s j).held ≡ false
held-apart n s i j m exclusive v below below' other h = v.alone i j m below below' other h
held-apart n s i j m shared v below below' other h =
    elim (Bool-cases (holds m exclusive (s j).held)) [
      | inr e ↦ e
      | inl e ↦ absurd (cc (v.alone j i m below' below (λ p. other (sym p)) e))
    ]

-- A lock keeps out whatever one that allows less does.
covers-apart :
    (m : Mutex) (mode kind : Mode) (held : List Lock)
    → covers mode kind ≡ true
    → holds m (opposite mode) held ≡ false
    → holds m (opposite kind) held ≡ false
covers-apart m shared shared held c h = h
covers-apart m exclusive exclusive held c h = h
covers-apart m shared exclusive held c h = cc
covers-apart m exclusive shared held c h = elim (Bool-cases (holds m exclusive held)) [
  | inr e ↦ e
  | inl e ↦ absurd (cc (holds-shared m exclusive held e))
]

module _ {n : ℕ} {grants : Policy} (laws : IsMutex n grants) where
  -- What a thread holds after its action keeps the others out as well.
  moved-apart :
      (s : Threads) (i j : ℕ) (m : Mutex) (a : Action) (rest : List Action)
      → IsOrderly n s
      → i < n
      → j < n
      → i ≢ j
      → (s i).rest ≡ a ∷ rest
      → ready a (grants s i) ≡ true
      → (kind : Mode) → holds m kind (moved a (s i).held) ≡ true
      → holds m (opposite kind) (s j).held ≡ false
  moved-apart s i j m a rest v below below' other e free kind h =
      elim (holds-moved a m kind (s i).held h) [
        | inl old ↦ held-apart n s i j m kind v below below' other old
        | inr (mode, q, wide) ↦ covers-apart m mode kind (s j).held wide (
            laws.excludes s i j m mode rest below below' other (e ∙ ap (λ (x : Action). x ∷ rest) q)
              (subst (λ (x : Action). ready x (grants s i) ≡ true) q free))
      ]

  moved-Leads :
      (s : Threads) (i : ℕ) (a : Action) (rest : List Action)
      → IsOrderly n s
      → (s i).rest ≡ a ∷ rest
      → Leads (s i).held (a ∷ rest) []
  moved-Leads s i a rest v e =
      subst (λ (x : List Action). Leads (s i).held x []) e (v.disciplined i)

  moved-alone :
      (s : Threads) (i : ℕ) (a : Action) (rest : List Action) (t : Thread)
      → IsOrderly n s
      → i < n
      → (s i).rest ≡ a ∷ rest
      → ready a (grants s i) ≡ true
      → t.held ≡ moved a (s i).held
      → (j k : ℕ) (m : Mutex) → j < n
      → k < n
      → j ≢ k
      → holds m exclusive (set_thread s i t j).held ≡ true
      → holds m shared (set_thread s i t k).held ≡ false
  moved-alone s i a rest t v small e free q j k m below below' other h =
      elim (Bool-cases (i == j)) [
        | inl at_j ↦ elim (Bool-cases (i == k)) [
          | inl at_k ↦ absurd (other (ground (arith, at_j, at_k)))
          | inr not_k ↦ rw not_k (
              moved-apart s i k m a rest v small below' (λ p. other (ground (arith, at_j, p))) e
                free exclusive (ground (arith, h, at_j, q)))
        ]
        | inr not_j ↦ elim (Bool-cases (i == k)) [
          | inr not_k ↦ rw not_k (v.alone j k m below below' other (ground (arith, h, not_j)))
          | inl at_k ↦ elim (Bool-cases (holds m shared (set_thread s i t k).held)) [
            | inr free ↦ free
            | inl taken ↦
                let held_j : holds m exclusive (s j).held ≡ true = ground (arith, h, not_j) in
                let apart : holds m exclusive (s j).held ≡ false =
                  moved-apart s i j m a rest v small below (λ p. other (ground (arith, at_k, p))) e
                    free shared (ground (arith, taken, at_k, q)) in
                cc
          ]
        ]
      ]

  pub Step-IsOrderly : {s t : Threads} → IsOrderly n s → Step n grants s t → IsOrderly n t
  Step-IsOrderly {s} v (moves i a rest small e free) = record {
    disciplined = λ j. elim (Bool-cases (i == j)) [
      | inl same ↦ rw same (moved-Leads s i a rest v e).1
      | inr other ↦ rw other (v.disciplined j)
    ];
    alone = moved-alone s i a rest _ v small e free refl;
  }

  pub Run-IsOrderly :
      {s : Threads} {k : ℕ} {t : Threads} → IsOrderly n s → Run n grants s k t → IsOrderly n t
  Run-IsOrderly v begin = v
  Run-IsOrderly v (later run step) = Step-IsOrderly (Run-IsOrderly v run) step
