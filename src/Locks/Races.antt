-- ===== src/Locks/Races.antt =====
-- No two threads use the same data at one time, unless both read.
use mathlib.Core.Path.{subst}
use smartmet_engine_sputnik.Prelude.{ℕ, ◌<◌, ◌≡◌, ◌≢◌, true, false, List, [], ◌∷◌}
use smartmet_engine_sputnik.Locks.{Mutex, Mode, shared, exclusive, Action, access, Call}
use smartmet_engine_sputnik.Locks.Discipline.{holds, Leads, allowed}
use smartmet_engine_sputnik.Locks.Threads.{Threads, Policy, IsMutex, Run, start}
use smartmet_engine_sputnik.Locks.Invariant.{
  IsOrderly, holds-shared, start-IsOrderly, Run-IsOrderly,
}

-- A thread that is about to use data holds their lock.
access-holds :
    (n : ℕ) (s : Threads) (i : ℕ) (m : Mutex) (kind : Mode) (rest : List Action)
    → IsOrderly n s
    → (s i).rest ≡ access m kind ∷ rest
    → holds m kind (s i).held ≡ true
unfolding allowed
access-holds n s i m kind rest v e =
    (subst (λ (x : List Action). Leads (s i).held x []) e (v.disciplined i)).0

module _ {n : ℕ} {grants : Policy} (laws : IsMutex n grants) where
  -- Let `n` threads make any calls of the registry and of the pause, interleaved in any way, under
  -- mutexes that keep what is documented of them; `setForwarding` and `setReactor`, which take no
  -- lock, are not among the calls, since `launch` makes them before it starts the thread. At no time is one thread about to write data
  -- while another is about to read or to write the same data.
  pub write-IsAlone :
      (calls : ℕ → List Call) (k : ℕ) (s : Threads)
      → Run n grants (start calls) k s
      → (i j : ℕ) (m : Mutex) (kind : Mode) (rest rest' : List Action) → i < n
      → j < n
      → i ≢ j
      → (s i).rest ≡ access m exclusive ∷ rest
      → (s j).rest ≢ access m kind ∷ rest'
  write-IsAlone calls k s run i j m kind rest rest' below below' other e e' =
      let v = Run-IsOrderly laws (start-IsOrderly n calls) run in
      let apart : holds m shared (s j).held ≡ false =
        v.alone i j m below below' other (access-holds n s i m exclusive rest v e) in
      let used : holds m shared (s j).held ≡ true =
        holds-shared m kind (s j).held (access-holds n s j m kind rest' v e') in
      cc
