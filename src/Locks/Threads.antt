-- ===== src/Locks/Threads.antt =====
-- Threads that make calls of the registry and of the pause, interleaved in any way, under mutexes
-- that are a parameter.
use smartmet_engine_sputnik.Prelude.{
  ℕ, zero, suc, ◌+◌, ◌<◌, ◌≡◌, ◌≢◌, Bool, true, false, List, [], ◌∷◌, length, if◌then◌else◌, ◌==◌,
}
use smartmet_engine_sputnik.Locks.{
  Mutex, Mode, shared, exclusive, Action, acquire, release, access, Call, locks_of_all,
}
use smartmet_engine_sputnik.Locks.Discipline.{Lock, holds, moved}

-- The locks that a thread holds, the last one first, and what it still has to do.
pub record Thread : Type 0 where
  pub held : List Lock
  pub rest : List Action

-- The threads have numbers.
abbrev pub Threads : Type 0
Threads = ℕ → Thread

abbrev pub set_thread : Threads → ℕ → Thread → Threads
set_thread s i t j = if i == j then t else s j

-- The mode of a lock that another thread must not hold.
abbrev pub opposite : Mode → Mode
opposite shared = exclusive
opposite exclusive = shared

-- Whether the mutex gives a thread that waits the lock that it waits for. This may depend on what
-- all the others hold and wait for, as where a writer that waits keeps new readers out.
abbrev pub Policy : Type 0
Policy = Threads → ℕ → Bool

-- What is documented of `std::mutex` and of a shared mutex, for `n` threads: a lock is given only if
-- no other thread holds one against it, and of the threads that wait for a mutex that nobody holds
-- one is let in.
pub record IsMutex (n : ℕ) (grants : Policy) : Type 0 where
  pub excludes :
      (s : Threads) (i j : ℕ) (m : Mutex) (mode : Mode) (rest : List Action)
      → i < n
      → j < n
      → i ≢ j
      → (s i).rest ≡ acquire m mode ∷ rest
      → grants s i ≡ true
      → holds m (opposite mode) (s j).held ≡ false
  pub lets_in :
      (s : Threads) (i : ℕ) (m : Mutex) (mode : Mode) (rest : List Action)
      → i < n
      → (s i).rest ≡ acquire m mode ∷ rest
      → ((j : ℕ) → j < n → holds m shared (s j).held ≡ false)
      → (k : ℕ) × (k < n)
        × (kind : Mode) × (later : List Action) × ((s k).rest ≡ acquire m kind ∷ later)
        × (grants s k ≡ true)

-- Only an `acquire` may have to wait.
abbrev pub ready : Action → Bool → Bool
ready (acquire m mode) granted = granted
ready (release m) granted = true
ready (access m kind) granted = true

module _ (n : ℕ) (grants : Policy) where
  -- One of the threads does its next action.
  pub data Step (s : Threads) : Threads → Type 0 where
    moves :
        (i : ℕ) (a : Action) (rest : List Action)
        → i < n
        → (s i).rest ≡ a ∷ rest
        → ready a (grants s i) ≡ true
        → Step s (set_thread s i (record { held = moved a (s i).held; rest = rest }))

  -- A schedule, with the number of its steps.
  pub data Run (s : Threads) : ℕ → Threads → Type 0 where
    begin : Run s 0 s
    later : {k : ℕ} {t u : Threads} → Run s k t → Step t u → Run s (suc k) u

-- The threads before their calls.
abbrev pub start : (ℕ → List Call) → Threads
start calls i = record { held = []; rest = locks_of_all (calls i) }

-- How many actions the first `n` threads have still to do.
unfoldable pub remaining : ℕ → Threads → ℕ
remaining zero s = 0
remaining (suc n) s = remaining n s + length (s n).rest
