-- ===== src/Tests/Locking.antt =====
-- Threads under mutexes that let in whoever finds no lock against theirs.
use smartmet_engine_sputnik.Prelude.{
  ℕ, zero, suc, ◌<◌, ◌≡◌, ◌≢◌, ◌⊎◌, refl, inl, inr, Bool, true, false, not, ◌&&◌, ◌||◌, List, [],
  ◌∷◌, some, if◌then◌else◌, ◌==◌, Bool-cases, arith,
}
use smartmet_engine_sputnik.Text.{codes}
use smartmet_engine_sputnik.Locks.{
  Mutex, Mode, shared, exclusive, Action, acquire, release, access, Call, locks_of_all,
}
use smartmet_engine_sputnik.Locks
use smartmet_engine_sputnik.Locks.Discipline.{holds, moved, mutex_eq}
use smartmet_engine_sputnik.Locks.Threads.{
  Threads, Policy, IsMutex, opposite, ready, Step, moves, Run, begin, later, start, remaining,
}
use smartmet_engine_sputnik.Locks.Invariant.{holds-shared}
use smartmet_engine_sputnik.Locks.Races.{write-IsAlone}
use smartmet_engine_sputnik.Locks.Ends.{Run-Ends}

-- Does none of the first `n` threads but `i` hold a lock against this one?
is_free : ℕ → Threads → ℕ → Mutex → Mode → Bool
is_free zero s i m mode = true
is_free (suc n) s i m mode =
    (i == n || not (holds m (opposite mode) (s n).held)) && is_free n s i m mode

-- What the policy says to the next action of a thread.
admits : ℕ → Threads → ℕ → List Action → Bool
unfolding is_free
admits n s i [] = false
admits n s i (acquire m mode ∷ rest) = is_free n s i m mode
admits n s i (release m ∷ rest) = false
admits n s i (access m kind ∷ rest) = false

first_come : ℕ → Policy
unfolding admits
first_come n s i = admits n s i (s i).rest

is_free-lt :
    (n : ℕ) (s : Threads) (i j : ℕ) (m : Mutex) (mode : Mode)
    → is_free n s i m mode ≡ true
    → j < n
    → i ≢ j
    → holds m (opposite mode) (s j).held ≡ false
unfolding is_free
is_free-lt zero s i j m mode h small other = absurd (omega arith)
is_free-lt (suc n) s i j m mode h small other = elim (Bool-cases (j == n)) [
  | inl same ↦ let e : j ≡ n = ground (arith, same) in rw e (ground (arith, other, e))
  | inr less ↦ is_free-lt n s i j m mode (ground arith) (ground (arith, less)) other
]

free-is_free :
    (n : ℕ) (s : Threads) (i : ℕ) (m : Mutex) (mode : Mode)
    → ((j : ℕ) → j < n → holds m (opposite mode) (s j).held ≡ false)
    → is_free n s i m mode ≡ true
unfolding is_free
free-is_free zero s i m mode h = refl
free-is_free (suc n) s i m mode h =
    ground (arith, h n, free-is_free n s i m mode (λ j small. h j (omega arith)))

free-opposite :
    (s : Threads) (j : ℕ) (m : Mutex) (mode : Mode)
    → holds m shared (s j).held ≡ false
    → holds m (opposite mode) (s j).held ≡ false
free-opposite s j m exclusive h = h
free-opposite s j m shared h = elim (Bool-cases (holds m exclusive (s j).held)) [
  | inr e ↦ e
  | inl e ↦ let e' = holds-shared m exclusive (s j).held e in cc
]

first_come-IsMutex : (n : ℕ) → IsMutex n (first_come n)
unfolding first_come
first_come-IsMutex n = record {
  excludes = λ s i j m mode rest below below' other e given.
      is_free-lt n s i j m mode (ground (arith, e, given)) below' other;
  lets_in = λ s i m mode rest small e free. (
    i,
    small,
    mode,
    rest,
    e,
    rw e (free-is_free n s i m mode (λ j below. free-opposite s j m mode (free j below))),
  );
}

-- One thread asks for a service, the other one adds a service.
calls : ℕ → List Call
calls zero = Call.get_service (some (codes "/wms")) ∷ []
calls (suc n) = Call.add_service true false (codes "/wms") ∷ []

-- A schedule that has been made, step by step.
record Trace : Type 0 where
  count : ℕ
  last : Threads
  run : Run 2 (first_come 2) (start calls) count last

decide : (b : Bool) → (b ≡ true) ⊎ (b ≡ false)
decide true = inl refl
decide false = inr refl

-- The next step of a thread, if it need not wait.
turn_as : (t : Trace) (i : ℕ) (todo : List Action) → i < 2 → (t.last i).rest ≡ todo → Trace
unfolding decide
turn_as t i [] small e = t
turn_as t i (a ∷ rest) small e = elim (decide (ready a (first_come 2 t.last i))) [
  | inl free ↦ record {
    count = suc t.count;
    last = _;
    run = later t.run (moves i a rest small e free);
  }
  | inr wait ↦ t
]

turns : List Bool → Trace → Trace
unfolding turn_as
turns [] t = t
turns (first ∷ more) t =
    let i : ℕ = if first then 0 else 1 in
    turns more (turn_as t i (t.last i).rest (ground arith) refl)

-- The second thread is about to write the prefix map, and the first one waits for the registry.
writing : Trace
unfolding turns first_come admits calls Locks.locks_of_all Locks.add_service_locks
    Locks.get_service_locks holds moved mutex_eq
writing = turns (false ∷ false ∷ true ∷ []) (record { count = 0; last = start calls; run = begin })

writing-count : writing.count ≡ 2
unfolding writing
writing-count = refl

abbrev behind : List Action → List Action
behind [] = []
behind (a ∷ rest) = rest

write-IsAlone_example :
    (writing.last 0).rest ≢ access Mutex.prefix_map shared ∷ behind (writing.last 0).rest
unfolding writing
write-IsAlone_example =
    write-IsAlone (first_come-IsMutex 2) calls writing.count writing.last writing.run 1 0
      Mutex.prefix_map shared (behind (writing.last 1).rest) (behind (writing.last 0).rest)
      (omega arith) (omega arith) (omega arith) refl

Run-Ends_example :
    ((writing.count < remaining 2 (start calls))
      × (t : Threads) × Step 2 (first_come 2) writing.last t)
    ⊎ ((writing.count ≡ remaining 2 (start calls))
        × ((i : ℕ) → i < 2 → ((writing.last i).rest ≡ []) × ((writing.last i).held ≡ [])))
Run-Ends_example = Run-Ends (first_come-IsMutex 2) calls writing.count writing.last writing.run
