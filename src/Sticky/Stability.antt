-- ===== src/Sticky/Stability.antt =====
-- Rendezvous hashing: removing a backend moves only the clients that it served.
use mathlib.Core.List.{append_assoc, append-nil}
use mathlib.Core.Option.{some-injective}
use mathlib.Core.Path.{subst}
use smartmet_engine_sputnik.Prelude.{
  ℕ, zero, suc, ◌+◌, ◌≤◌, ◌≡◌, refl, sym, ap, ◌∙◌, true, false, ◌⊎◌, inl, inr, List, [], ◌∷◌, ◌++◌,
  Option, none, some, ltb, Bool-cases, if◌then◌else◌, length, length-append, get_elem?, ℤ, int_lt,
  arith, Option-cases,
}
use smartmet_engine_sputnik.Spine.{Reactor}
use smartmet_engine_sputnik.Backend.{BackendInfo}
use smartmet_engine_sputnik.Sticky.{
  Best, no_best, select_step, select_loop, score_of, connections_of,
}
use smartmet_engine_sputnik.Sticky.Winner.{IsEligible}

get_elem?-append_left {ℓ} :
    {A : Type ℓ} (xs ys : List A) (i : ℕ) {x : A}
    → get_elem? xs i ≡ some x
    → get_elem? (xs ++ ys) i ≡ some x
get_elem?-append_left [] ys i e = absurd (cc)
get_elem?-append_left (y ∷ xs) ys zero e = e
get_elem?-append_left (y ∷ xs) ys (suc i) e = get_elem?-append_left xs ys i e

get_elem?-append_length {ℓ} :
    {A : Type ℓ} (xs : List A) (x : A) → get_elem? (xs ++ x ∷ []) (length xs) ≡ some x
get_elem?-append_length [] x = refl
get_elem?-append_length (y ∷ xs) x = get_elem?-append_length xs x

module _ {F : Type 0} (r : Reactor) (threshold : ℤ) (key_hash : ℕ) where
  -- The better of the backend kept so far and the next one.
  better : BackendInfo F → Option (BackendInfo F) → Option (BackendInfo F)
  better x none = if int_lt threshold (connections_of r x) then none else some x
  better x (some y) =
      if int_lt threshold (connections_of r x)
      then some y
      else if ltb (score_of key_hash y) (score_of key_hash x)
      then some x
      else some y

  champion : List (BackendInfo F) → Option (BackendInfo F) → Option (BackendInfo F)
  champion [] c = c
  champion (x ∷ xs) c = champion xs (better x c)

  -- The loop's variables stand for the backend kept so far.
  abbrev Tracks : List (BackendInfo F) → Best → Option (BackendInfo F) → Type 0
  Tracks seen b none = b.first ≡ true
  Tracks seen b (some x) =
      (b.first ≡ false) × (b.score ≡ score_of key_hash x) × (get_elem? seen b.index ≡ some x)

  select_step-Tracks :
      (seen : List (BackendInfo F)) (x : BackendInfo F) (b : Best) (c : Option (BackendInfo F))
      → Tracks seen b c
      → Tracks (seen ++ x ∷ []) (select_step r threshold key_hash (length seen) x b) (better x c)
  unfolding select_step better
  select_step-Tracks seen x b none t = ground (arith, get_elem?-append_length seen x)
  select_step-Tracks seen x b (some y) t =
      ground
        (arith, get_elem?-append_length seen x, get_elem?-append_left seen (x ∷ []) b.index t.2)

  select_loop-Tracks :
      (xs seen : List (BackendInfo F)) (i : ℕ) (b : Best) (c : Option (BackendInfo F))
      → i ≡ length seen
      → Tracks seen b c
      → Tracks (seen ++ xs) (select_loop r threshold key_hash i xs b) (champion xs c)
  unfolding select_loop champion
  select_loop-Tracks [] seen i b c e t = rw append-nil t
  select_loop-Tracks (x ∷ xs) seen i b c e t =
      let step : Tracks (seen ++ x ∷ []) (select_step r threshold key_hash i x b) (better x c) =
        rw e (select_step-Tracks seen x b c t) in
      subst
        (λ ys. Tracks ys (select_loop r threshold key_hash i (x ∷ xs) b) (champion xs (better x c)))
        (append_assoc seen (x ∷ []) xs)
        (select_loop-Tracks xs (seen ++ x ∷ []) (i + 1) _ (better x c)
          (omega (arith, e, length-append seen (x ∷ []))) step)

  champion-append :
      (xs ys : List (BackendInfo F)) (c : Option (BackendInfo F))
      → champion (xs ++ ys) c ≡ champion ys (champion xs c)
  unfolding champion
  champion-append [] ys c = refl
  champion-append (x ∷ xs) ys c = champion-append xs ys (better x c)

  abbrev NotAbove : Option (BackendInfo F) → BackendInfo F → Type 0
  NotAbove none x = Unit
  NotAbove (some y) x = score_of key_hash y ≤ score_of key_hash x

  better_cases :
      (y x : BackendInfo F) (c : Option (BackendInfo F))
      → NotAbove c x
      → (better y (some x) ≡ better y c) ⊎ ((better y (some x) ≡ some x) × NotAbove (better y c) x)
  unfolding better
  better_cases y x none h = ground arith
  better_cases y x (some z) h = ground arith

  -- A champion that is beaten later leaves no trace.
  champion-beaten :
      (xs : List (BackendInfo F)) (x : BackendInfo F) (c : Option (BackendInfo F))
      → NotAbove c x
      → (champion xs (some x) ≡ some x) ⊎ (champion xs c ≡ champion xs (some x))
  unfolding champion
  champion-beaten [] x c h = inl refl
  champion-beaten (y ∷ xs) x c h = elim (better_cases y x c h) [
    | inl e ↦ inr (ap (champion xs) (sym e))
    | inr (e, n) ↦ rw e (champion-beaten xs x (better y c) n)
  ]

  -- A list with an eligible backend has a champion.
  champion-some :
      (xs : List (BackendInfo F)) (x : BackendInfo F)
      → (y : BackendInfo F) × (champion xs (some x) ≡ some y)
  unfolding champion better
  champion-some [] x = (x, refl)
  champion-some (z ∷ xs) x = elim (Bool-cases (int_lt threshold (connections_of r z))) [
    | inl hot ↦ rw hot (champion-some xs x)
    | inr fine ↦ elim (Bool-cases (ltb (score_of key_hash x) (score_of key_hash z))) [
      | inl up ↦ rw (fine, up) (champion-some xs z)
      | inr down ↦ rw (fine, down) (champion-some xs x)
    ]
  ]

  champion-ne-none :
      (xs : List (BackendInfo F)) (c : Option (BackendInfo F)) (k : ℕ) {x : BackendInfo F}
      → get_elem? xs k ≡ some x
      → IsEligible r threshold key_hash x
      → champion xs c ≡ none
      → ⊥
  unfolding champion better
  champion-ne-none [] c k e el n = cc
  champion-ne-none (z ∷ xs) c (suc k) e el n = champion-ne-none xs (better z c) k e el n
  champion-ne-none (z ∷ xs) none zero e el n =
      let b : better z none ≡ some z = ground (arith, el) in
      let (w, p) = champion-some xs z in cc (sym (ap (champion xs) b ∙ p) ∙ n)
  champion-ne-none (z ∷ xs) (some y) zero e el n =
      let (w, p) = champion-some (z ∷ xs) y in cc (sym p ∙ n)

  better_kept :
      (x : BackendInfo F) (c : Option (BackendInfo F))
      → (better x c ≡ c) ⊎ ((better x c ≡ some x) × NotAbove c x)
  unfolding better
  better_kept x none = ground arith
  better_kept x (some z) = ground arith

  -- The backend at which the loop ends.
  abbrev pub selected : List (BackendInfo F) → Option (BackendInfo F)
  selected xs = get_elem? xs (select_loop r threshold key_hash 0 xs no_best).index

  champion-selected :
      (xs : List (BackendInfo F)) {w : BackendInfo F}
      → champion xs none ≡ some w
      → selected xs ≡ some w
  champion-selected xs {w} e =
      (subst (Tracks xs (select_loop r threshold key_hash 0 xs no_best)) e
        (select_loop-Tracks xs [] 0 no_best none refl refl)).2

  -- Let the threshold, the hash of the client's key and the counts be fixed. Of the backends with a
  -- connection count up to the threshold, let `w` be the one that the loop selects. From the list
  -- without a backend `x`, it selects `w` as before, unless `x` is `w`. Read from right to left: at
  -- the same threshold, a new backend only takes over clients that it serves itself. In `getBackend`
  -- the threshold comes from the least count, which may change with the list.
  pub selected-remove :
      (l s : List (BackendInfo F)) (x w : BackendInfo F)
      → selected (l ++ x ∷ s) ≡ some w
      → IsEligible r threshold key_hash w
      → (w ≡ x) ⊎ (selected (l ++ s) ≡ some w)
  unfolding champion
  selected-remove l s x w e el = elim (Option-cases (champion (l ++ x ∷ s) none)) [
    | inl n ↦ absurd (champion-ne-none (l ++ x ∷ s) none _ e el n)
    | inr (w', n) ↦
        let same : some w' ≡ some w = sym (champion-selected (l ++ x ∷ s) n) ∙ e in
        let won : champion s (better x (champion l none)) ≡ some w =
          sym (champion-append l (x ∷ s) none) ∙ n ∙ same in
        elim (better_kept x (champion l none)) [
          | inl k ↦ inr (
              champion-selected (l ++ s) (champion-append l s none ∙ ap (champion s) (sym k) ∙ won))
          | inr (k, below) ↦ elim (champion-beaten s x (champion l none) below) [
            | inl stays ↦ inl (some-injective _ _ (sym won ∙ ap (champion s) k ∙ stays))
            | inr beaten ↦ inr (
                champion-selected (l ++ s)
                  (champion-append l s none ∙ beaten ∙ ap (champion s) (sym k) ∙ won))
          ]
        ]
  ]
