-- ===== src/Locks/Progress.antt =====
-- The threads never wait for one another without end: some thread can always go on, until all the
-- calls are done.
use mathlib.Core.Path.{subst}
use smartmet_engine_sputnik.Prelude.{
  ℕ, zero, suc, ◌+◌, ◌<◌, ◌≤◌, ◌≡◌, ◌≢◌, ◌⊎◌, refl, ap, ◌∙◌, inl, inr, true, false, List, [], ◌∷◌,
  ◌==◌, Bool-cases, arith,
}
use smartmet_engine_sputnik.Locks.{
  Mutex, services, prefix_map, sentinels, pause, forwarder, sentinel, Mode, shared, Action, acquire,
  release, access, Call,
}
use smartmet_engine_sputnik.Locks.Discipline.{Lock, rank, holds, Leads, allowed}
use smartmet_engine_sputnik.Locks.Threads.{Threads, Policy, IsMutex, ready, Step, moves, Run, start}
use smartmet_engine_sputnik.Locks.Invariant.{IsOrderly, holds-rank, start-IsOrderly, Run-IsOrderly}

rank-lt : (m : Mutex) → rank m < 6
rank-lt services = omega arith
rank-lt prefix_map = omega arith
rank-lt (forwarder uri) = omega arith
rank-lt sentinels = omega arith
rank-lt (sentinel name) = omega arith
rank-lt pause = omega arith

List-cases {ℓ} :
    {A : Type ℓ} (xs : List A) → (xs ≡ []) ⊎ ((x : A) × (rest : List A) × (xs ≡ x ∷ rest))
List-cases [] = inl refl
List-cases (x ∷ xs) = inr (x, xs, refl)

-- One of the first `n` threads holds the mutex, or none.
search_holder :
    (n : ℕ) (s : Threads) (m : Mutex)
    → ((j : ℕ) × (j < n) × (holds m shared (s j).held ≡ true))
      ⊎ ((j : ℕ) → j < n → holds m shared (s j).held ≡ false)
search_holder zero s m = inr (λ j h. absurd (omega arith))
search_holder (suc n) s m = elim (Bool-cases (holds m shared (s n).held)) [
  | inl e ↦ inl (n, omega arith, e)
  | inr e ↦ elim (search_holder n s m) [
    | inl (j, small, h) ↦ inl (j, omega arith, h)
    | inr free ↦ inr (λ j small. elim (Bool-cases (n == j)) [
      | inl same ↦ subst (λ (x : ℕ). holds m shared (s x).held ≡ false) (ground arith) e
      | inr other ↦ free j (ground arith)
    ])
  ]
]

-- One of the first `n` threads has something left to do, or none.
search_busy :
    (n : ℕ) (s : Threads)
    → ((i : ℕ) × (i < n) × (a : Action) × (rest : List Action) × ((s i).rest ≡ a ∷ rest))
      ⊎ ((i : ℕ) → i < n → (s i).rest ≡ [])
search_busy zero s = inr (λ i h. absurd (omega arith))
search_busy (suc n) s = elim (List-cases (s n).rest) [
  | inr (a, rest, e) ↦ inl (n, omega arith, a, rest, e)
  | inl e ↦ elim (search_busy n s) [
    | inl (i, small, a, rest, e') ↦ inl (i, omega arith, a, rest, e')
    | inr done ↦ inr (λ i small. elim (Bool-cases (n == i)) [
      | inl same ↦ subst (λ (x : ℕ). (s x).rest ≡ []) (ground arith) e
      | inr other ↦ done i (ground arith)
    ])
  ]
]

module _ {n : ℕ} {grants : Policy} (laws : IsMutex n grants) where
  abbrev Moves : Threads → Type 0
  Moves s = (t : Threads) × Step n grants s t

  goes_on :
      (s : Threads) (i : ℕ) (a : Action) (rest : List Action)
      → i < n
      → (s i).rest ≡ a ∷ rest
      → ready a (grants s i) ≡ true
      → Moves s
  goes_on s i a rest small e free = (_, moves i a rest small e free)

  -- A thread that holds a mutex can go on, if it can where it waits for a mutex behind that one.
  holder-Moves :
      (s : Threads) (j : ℕ) (m : Mutex) (a : Action) (rest : List Action)
      → IsOrderly n s
      → j < n
      → holds m shared (s j).held ≡ true
      → (s j).rest ≡ a ∷ rest
      → ((m' : Mutex) (mode : Mode) → a ≡ acquire m' mode → rank m < rank m' → Moves s)
      → Moves s
  unfolding allowed
  holder-Moves s j m (release m') rest v small held e wait =
      goes_on s j (release m') rest small e refl
  holder-Moves s j m (access m' k) rest v small held e wait =
      goes_on s j (access m' k) rest small e refl
  holder-Moves s j m (acquire m' mode) rest v small held e wait = wait m' mode refl (
      holds-rank m m' shared (s j).held held
        (subst (λ (x : List Action). Leads (s j).held x []) e (v.disciplined j)).0)

  -- A thread that holds a mutex has not finished.
  holder-busy :
      (s : Threads) (j : ℕ) (m : Mutex)
      → IsOrderly n s
      → holds m shared (s j).held ≡ true
      → (s j).rest ≢ []
  unfolding holds
  holder-busy s j m v held e =
      let none_held : (s j).held ≡ [] =
        subst (λ (x : List Action). Leads (s j).held x []) e (v.disciplined j) in
      absurd (cc (subst (λ (x : List Lock). holds m shared x ≡ true) none_held held))

  -- A thread that waits for a mutex waits for nobody, for a thread that can go on, or for one that
  -- waits for a mutex behind it.
  waiting-Moves :
      (fuel : ℕ) (s : Threads) (i : ℕ) (m : Mutex) (mode : Mode) (rest : List Action)
      → IsOrderly n s
      → i < n
      → (s i).rest ≡ acquire m mode ∷ rest
      → 6 ≤ rank m + fuel
      → Moves s
  waiting-Moves zero s i m mode rest v small e enough = absurd (omega (arith, rank-lt m))
  waiting-Moves (suc fuel) s i m mode rest v small e enough = elim (search_holder n s m) [
    | inr free ↦
        let (k, small', kind, more, e', given) = laws.lets_in s i m mode rest small e free in
        goes_on s k (acquire m kind) more small' e' given
    | inl (j, small', held) ↦ elim (List-cases (s j).rest) [
      | inl done ↦ absurd (holder-busy s j m v held done)
      | inr (a, more, e') ↦ holder-Moves s j m a more v small' held e' (λ m' mode' q behind.
          waiting-Moves fuel s j m' mode' more v small' (e' ∙ ap (λ (x : Action). x ∷ more) q)
            (omega (arith, behind, enough)))
    ]
  ]

  busy-Moves :
      (s : Threads) (i : ℕ) (a : Action) (rest : List Action)
      → IsOrderly n s
      → i < n
      → (s i).rest ≡ a ∷ rest
      → Moves s
  busy-Moves s i (acquire m mode) rest v small e =
      waiting-Moves 6 s i m mode rest v small e (omega arith)
  busy-Moves s i (release m) rest v small e = goes_on s i (release m) rest small e refl
  busy-Moves s i (access m kind) rest v small e = goes_on s i (access m kind) rest small e refl

  -- At any time some thread can do its next action, or all have done their calls and hold no lock.
  pub no_deadlock :
      (calls : ℕ → List Call) (k : ℕ) (s : Threads)
      → Run n grants (start calls) k s
      → ((t : Threads) × Step n grants s t)
        ⊎ ((i : ℕ) → i < n → ((s i).rest ≡ []) × ((s i).held ≡ []))
  no_deadlock calls k s run =
      let v = Run-IsOrderly laws (start-IsOrderly n calls) run in
      elim (search_busy n s) [
        | inl (i, small, a, rest, e) ↦ inl (busy-Moves s i a rest v small e)
        | inr done ↦ inr (λ i small. (
          done i small,
          subst (λ (x : List Action). Leads (s i).held x []) (done i small) (v.disciplined i),
        ))
      ]
