-- ===== src/Locks/Ends.antt =====
-- Every schedule ends, with all the calls done.
use smartmet_engine_sputnik.Prelude.{
  ℕ, zero, suc, ◌+◌, ◌<◌, ◌≤◌, ◌≡◌, ◌⊎◌, refl, ap, inl, inr, List, [], length, ◌==◌, Bool-cases,
  arith,
}
use smartmet_engine_sputnik.Locks.{Action, Call}
use smartmet_engine_sputnik.Locks.Threads.{
  Thread, Threads, set_thread, Policy, IsMutex, Step, moves, Run, begin, later, start, remaining,
}
use smartmet_engine_sputnik.Locks.Progress.{no_deadlock}

remaining-set_above :
    (n : ℕ) (s : Threads) (i : ℕ) (t : Thread)
    → n ≤ i
    → remaining n (set_thread s i t) ≡ remaining n s
unfolding remaining
remaining-set_above zero s i t h = refl
remaining-set_above (suc n) s i t h = ground (arith, remaining-set_above n s i t)

remaining-set_thread :
    (n : ℕ) (s : Threads) (i : ℕ) (t : Thread)
    → i < n
    → remaining n (set_thread s i t) + length (s i).rest ≡ remaining n s + length t.rest
unfolding remaining
remaining-set_thread zero s i t h = absurd (omega arith)
remaining-set_thread (suc n) s i t h = elim (Bool-cases (i == n)) [
  | inl same ↦
      let e : i ≡ n = ground (arith, same) in
      rw same (
        omega (
          arith,
          remaining-set_above n s i t (omega (arith, e)),
          ap (λ (x : ℕ). length (s x).rest) e,
        ))
  | inr other ↦ ground (arith, other, remaining-set_thread n s i t)
]

module _ {n : ℕ} {grants : Policy} where
  -- A step is one action less.
  Step-remaining : {s t : Threads} → Step n grants s t → suc (remaining n t) ≡ remaining n s
  Step-remaining {s} (moves i a rest small e free) =
      omega (arith, remaining-set_thread n s i _ small, ap (λ (x : List Action). length x) e)

  Run-remaining :
      {s : Threads} {k : ℕ} {t : Threads} → Run n grants s k t → k + remaining n t ≡ remaining n s
  Run-remaining begin = omega arith
  Run-remaining (later run step) = omega (arith, Run-remaining run, Step-remaining step)

remaining-done : (n : ℕ) (s : Threads) → ((i : ℕ) → i < n → (s i).rest ≡ []) → remaining n s ≡ 0
unfolding remaining
remaining-done zero s done = refl
remaining-done (suc n) s done = omega (
  arith,
  remaining-done n s (λ i h. done i (omega arith)),
  ap (λ (x : List Action). length x) (done n (omega arith)),
)

module _ {n : ℕ} {grants : Policy} (laws : IsMutex n grants) where
  -- Let `n` threads make any calls of the registry and of the pause, interleaved in any way, under
  -- mutexes that keep what is documented of them, `setForwarding` and `setReactor` excepted, which
  -- take no lock. As long as fewer steps have been made than the
  -- calls have actions, some thread can go on, so there is no deadlock; and after that many steps
  -- every thread has done its calls and holds no lock. So every schedule ends.
  pub Run-Ends :
      (calls : ℕ → List Call) (k : ℕ) (s : Threads)
      → Run n grants (start calls) k s
      → ((k < remaining n (start calls)) × (t : Threads) × Step n grants s t)
        ⊎ ((k ≡ remaining n (start calls))
            × ((i : ℕ) → i < n → ((s i).rest ≡ []) × ((s i).held ≡ [])))
  Run-Ends calls k s run = elim (no_deadlock laws calls k s run) [
    | inl (t, step) ↦ inl (omega (arith, Run-remaining run, Step-remaining step), t, step)
    | inr done ↦
        inr (omega (arith, Run-remaining run, remaining-done n s (λ i h. (done i h).0)), done)
  ]
