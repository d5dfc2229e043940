-- ===== src/Pause/Deadline.antt =====
-- What the queries answer between two commands.
use smartmet_engine_sputnik.Prelude.{
  ℕ, ◌≤◌, ◌≡◌, refl, Bool, true, false, List, [], ◌∷◌, none, map, ltb, Bool-cases, inl, inr, arith,
}
use smartmet_engine_sputnik.Pause.{Pause, set_pause, set_pause_until, set_continue, is_paused}

-- The answers to queries at the given times, one after the other.
abbrev pub answers : List ℕ → Pause → List Bool
answers [] p = []
answers (now ∷ times) p = (is_paused now p).0 ∷ answers times (is_paused now p).1

-- Each time is not before the one that precedes it, nor before `start`.
abbrev pub Rising : ℕ → List ℕ → Type 0
Rising start [] = Unit
Rising start (now ∷ times) = (start ≤ now) × Rising now times

answers-off :
    (times : List ℕ)
    → answers times (set_continue (record { paused = true; deadline = none }))
      ≡ map (λ now. false) times
unfolding is_paused set_continue
answers-off [] = refl
answers-off (now ∷ times) = ground (arith, answers-off times)

expired :
    (times : List ℕ) (start time : ℕ)
    → time ≤ start
    → Rising start times
    → map (λ now. ltb now time) times ≡ map (λ now. false) times
expired [] start time h r = refl
expired (now ∷ times) start time h r = ground (arith, expired times now time (omega arith) r.1)

-- After `setPauseUntil`, queries at times that do not run backwards answer that Sputnik is paused
-- exactly as long as the time is before the deadline: the query that ends the pause changes no
-- later answer.
pub answers-set_pause_until :
    (p : Pause) (time start : ℕ) (times : List ℕ)
    → Rising start times
    → answers times (set_pause_until time p) ≡ map (λ now. ltb now time) times
unfolding set_pause_until set_continue is_paused
answers-set_pause_until p time start [] r = refl
answers-set_pause_until p time start (now ∷ times) r = elim (Bool-cases (ltb now time)) [
  | inl before ↦ ground (arith, answers-set_pause_until p time now times r.1)
  | inr after ↦ ground (arith, answers-off times, expired times now time)
]

-- After `setPause` every query answers that Sputnik is paused, and after `setContinue` none does.
pub answers-set_pause :
    (p : Pause) (times : List ℕ)
    → (answers times (set_pause p) ≡ map (λ now. true) times)
      × (answers times (set_continue p) ≡ map (λ now. false) times)
unfolding set_pause set_continue is_paused
answers-set_pause p [] = (refl, refl)
answers-set_pause p (now ∷ times) = ground (arith, answers-set_pause p times)
