-- ===== src/Sticky/Winner.antt =====
-- The second loop of `StickyForwarder::getBackend` finds the eligible backend of the highest score.
use mathlib.Core.Path.{subst}
use native.Mathlib.Nat.{zero-add}
use smartmet_engine_sputnik.Prelude.{
  sym, ℕ, suc, ◌+◌, ◌-◌, ◌≤◌, ◌<◌, ◌≡◌, refl, ap, ◌∙◌, false, ◌||◌, ◌⊎◌, inl, inr, List, [], ◌∷◌,
  some, ltb, Bool-cases, length, get_elem?, All, All-get_elem?, get_elem?-some-lt, ℤ, pos, int_lt,
  arith, int_min, ◌≤ℤ◌, negsuc,
}
use smartmet_engine_sputnik.Text.{Str}
use smartmet_engine_sputnik.Platform.{Platform}
use smartmet_engine_sputnik.Spine.{Reactor, Request}
use smartmet_engine_sputnik.Backend.{BackendInfo}
use smartmet_engine_sputnik.Sticky.{
  Best, no_best, select_step, select_loop, score_of, connections_of, min_connections, threshold_of,
  connection_slack, factor_of, sticky_backend, fnv1a, fnv_offset, extract_key, int_max,
}

module _ {F : Type 0} (r : Reactor) (threshold : ℤ) (key_hash : ℕ) where
  -- A backend that is not left out as a hotspot.
  abbrev pub IsEligible : BackendInfo F → Type 0
  IsEligible x = int_lt threshold (connections_of r x) ≡ false

  -- No eligible backend scores above `top`.
  abbrev pub AllBelow : ℕ → List (BackendInfo F) → Type 0
  AllBelow top = All (λ x. IsEligible x → score_of key_hash x ≤ top)

  -- `i` is the index of an eligible backend, and no eligible one scores higher.
  pub record IsWinner (infos : List (BackendInfo F)) (i : ℕ) (info : BackendInfo F) : Type 0 where
    pub found : get_elem? infos i ≡ some info
    pub eligible : IsEligible info
    pub highest : AllBelow (score_of key_hash info) infos

  AllBelow-mono : (a b : ℕ) (xs : List (BackendInfo F)) → a ≤ b → AllBelow a xs → AllBelow b xs
  AllBelow-mono a b [] h p = tt
  AllBelow-mono a b (x ∷ xs) h p = (λ e. omega (arith, p.0 e), AllBelow-mono a b xs h p.1)

  -- What the loop has kept: the value it began with, or a backend of the list.
  abbrev Kept : ℕ → List (BackendInfo F) → Best → Best → Type 0
  Kept i xs b final =
      ((final ≡ b)
        × All (λ x. IsEligible x → (b.first ≡ false) × (score_of key_hash x ≤ b.score)) xs)
      ⊎ ((k : ℕ) × (info : BackendInfo F) × (final
            ≡ record { index = i + k; score = score_of key_hash info; first = false })
          × IsWinner xs k info
          × ((b.first ≡ false) → b.score ≤ score_of key_hash info))

  abbrev taken : ℕ → BackendInfo F → Best
  taken i x = record { index = i; score = score_of key_hash x; first = false }

  Kept-skip :
      (i : ℕ) (x : BackendInfo F) (xs : List (BackendInfo F)) (b final : Best)
      → (IsEligible x → (b.first ≡ false) × (score_of key_hash x ≤ b.score))
      → Kept (i + 1) xs b final
      → Kept i (x ∷ xs) b final
  Kept-skip i x xs b final h (inl (e, p)) = inl (e, (h, p))
  Kept-skip i x xs b final h (inr (k, info, e, w, p)) = inr (
    suc k,
    info,
    ground (arith, e),
    record {
      found = w.found;
      eligible = w.eligible;
      highest = (λ el. let q = h el in omega (arith, p q.0), w.highest);
    },
    p,
  )

  Kept-take :
      (i : ℕ) (x : BackendInfo F) (xs : List (BackendInfo F)) (b final : Best)
      → IsEligible x
      → ((b.first ≡ false) → b.score ≤ score_of key_hash x)
      → Kept (i + 1) xs (taken i x) final
      → Kept i (x ∷ xs) b final
  Kept-take i x xs b final el h (inl (e, p)) = inr (
    0,
    x,
    ground (arith, e),
    record { found = refl; eligible = el; highest = (λ _. omega arith, below xs p) },
    h,
  )
    where
      below :
          (ys : List (BackendInfo F))
          → All
              (λ y. IsEligible y → (false ≡ false) × (score_of key_hash y ≤ score_of key_hash x))
              ys
          → AllBelow (score_of key_hash x) ys
      below [] q = tt
      below (y ∷ ys) q = (λ e'. (q.0 e').1, below ys q.1)
  Kept-take i x xs b final el h (inr (k, info, e, w, p)) = inr (
    suc k,
    info,
    ground (arith, e),
    record { found = w.found; eligible = w.eligible; highest = (λ _. p refl, w.highest) },
    λ f. omega (arith, h f, p refl),
  )

  select_loop-Kept :
      (i : ℕ) (xs : List (BackendInfo F)) (b : Best)
      → Kept i xs b (select_loop r threshold key_hash i xs b)
  unfolding select_loop select_step
  select_loop-Kept i [] b = inl (refl, tt)
  select_loop-Kept i (x ∷ xs) b = elim (Bool-cases (int_lt threshold (connections_of r x))) [
    | inl hot ↦
        let e : select_step r threshold key_hash i x b ≡ b = ground arith in
        subst (Kept i (x ∷ xs) b) (sym (ap (select_loop r threshold key_hash (i + 1) xs) e))
          (Kept-skip i x xs b _ (λ el. cc) (select_loop-Kept (i + 1) xs b))
    | inr fine ↦ elim (Bool-cases (b.first || ltb b.score (score_of key_hash x))) [
      | inl better ↦
          let e : select_step r threshold key_hash i x b ≡ taken i x = ground arith in
          subst (Kept i (x ∷ xs) b) (sym (ap (select_loop r threshold key_hash (i + 1) xs) e)) (
            Kept-take i x xs b _ fine (λ f. ground arith) (select_loop-Kept (i + 1) xs (taken i x)))
      | inr worse ↦
          let e : select_step r threshold key_hash i x b ≡ b = ground arith in
          subst (Kept i (x ∷ xs) b) (sym (ap (select_loop r threshold key_hash (i + 1) xs) e)) (
            Kept-skip i x xs b _ (λ el. (ground arith, ground arith))
              (select_loop-Kept (i + 1) xs b))
    ]
  ]

  -- Over a list with an eligible backend, the loop ends at the index of a winner.
  pub select_loop-IsWinner :
      (xs : List (BackendInfo F)) (k : ℕ) (x : BackendInfo F)
      → get_elem? xs k ≡ some x
      → IsEligible x
      → (info : BackendInfo F) × IsWinner xs
          (select_loop r threshold key_hash 0 xs no_best).index
          info
  select_loop-IsWinner xs k x e el = go (select_loop-Kept 0 xs no_best)
    where
      go :
          Kept 0 xs no_best (select_loop r threshold key_hash 0 xs no_best)
          → (info : BackendInfo F) × IsWinner xs
              (select_loop r threshold key_hash 0 xs no_best).index
              info
      go (inl (same, p)) = absurd (let q = (All-get_elem? _ xs k p e) el in cc (q.0))
      go (inr (j, info, same, w, p)) = (info, rw same (rw zero-add w))

  -- The loop ends at an index of the list, whatever the counts are.
  pub select_loop-lt :
      (xs : List (BackendInfo F))
      → 0 < length xs
      → (select_loop r threshold key_hash 0 xs no_best).index < length xs
  select_loop-lt xs h = go (select_loop-Kept 0 xs no_best)
    where
      go :
          Kept 0 xs no_best (select_loop r threshold key_hash 0 xs no_best)
          → (select_loop r threshold key_hash 0 xs no_best).index < length xs
      go (inl (same, p)) = rw same h
      go (inr (j, info, same, w, p)) = rw (same, zero-add) (get_elem?-some-lt xs j w.found)

-- Every count is from 0 to `bound`.
abbrev pub CountsWithin : {F : Type 0} → Reactor → ℕ → List (BackendInfo F) → Type 0
CountsWithin r bound = All (λ x. (pos 0 ≤ℤ connections_of r x) × (connections_of r x ≤ℤ pos bound))

-- Scaling a number up to `bound` by `x` in `double` and cutting the result to an `int` gives no
-- less, and leaves room for the slack: true in IEEE arithmetic of a factor of 1 or more, while the
-- products stay so far below the largest `int`.
abbrev pub ScalesUp : (P : Platform) → P.Float → ℕ → Type 0
ScalesUp P x bound =
    (m : ℕ)
    → m ≤ bound
    → (pos m ≤ℤ P.to_int (P.mul_double x (P.of_int (pos m))))
      × (P.to_int (P.mul_double x (P.of_int (pos m))) ≤ℤ pos (2147483647 - connection_slack))

module _ {F : Type 0} (r : Reactor) where
  abbrev Attained : List (BackendInfo F) → ℤ → ℤ → Type 0
  Attained xs least m =
      ((m ≡ least) × All (λ x. least ≤ℤ connections_of r x) xs)
      ⊎ ((k : ℕ) × (x : BackendInfo F) × (get_elem? xs k ≡ some x)
          × (connections_of r x ≡ m)
          × (m ≤ℤ least))

  Attained-cons :
      (x : BackendInfo F) (xs : List (BackendInfo F)) (least m : ℤ)
      → Attained xs (int_min least (connections_of r x)) m
      → Attained (x ∷ xs) least m
  Attained-cons x xs least m (inr (k, y, e, c, l)) = inr (suc k, y, e, c, ground (arith, l))
  Attained-cons x xs least m (inl (e, p)) = elim (Bool-cases (int_lt (connections_of r x) least)) [
    | inl less ↦ inr (0, x, refl, ground (arith, e), ground (arith, e))
    | inr more ↦
        let kept : int_min least (connections_of r x) ≡ least = ground arith in
        inl (e ∙ kept, (ground arith, subst (λ l. All (λ y. l ≤ℤ connections_of r y) xs) kept p))
  ]

  min_connections-Attained :
      (xs : List (BackendInfo F)) (least : ℤ) → Attained xs least (min_connections r least xs)
  unfolding min_connections
  min_connections-Attained [] least = inl (refl, tt)
  min_connections-Attained (x ∷ xs) least =
      Attained-cons x xs least _ (min_connections-Attained xs _)

  -- Below the largest `int` the minimum is the count of some backend.
  pub min_connections-some :
      (xs : List (BackendInfo F)) (bound : ℕ)
      → 0 < length xs
      → bound < 2147483647
      → CountsWithin r bound xs
      → (k : ℕ) × (x : BackendInfo F) × (get_elem? xs k ≡ some x)
        × (connections_of r x ≡ min_connections r int_max xs)
  min_connections-some [] bound n h c = absurd (omega arith)
  min_connections-some (x ∷ xs) bound n h c = go (min_connections-Attained (x ∷ xs) int_max)
    where
      go :
          Attained (x ∷ xs) int_max (min_connections r int_max (x ∷ xs))
          → (k : ℕ) × (y : BackendInfo F) × (get_elem? (x ∷ xs) k ≡ some y)
            × (connections_of r y ≡ min_connections r int_max (x ∷ xs))
      go (inl (e, p)) = absurd (omega (arith, p.0, c.0.1))
      go (inr (k, y, e, d, l)) = (k, y, e, d)

threshold-not-lt :
    (P : Platform) (coefficient : P.Float) (bound : ℕ) (count : ℤ) {least : ℤ}
    → (pos 0 ≤ℤ count) × (count ≤ℤ pos bound)
    → ScalesUp P (factor_of P coefficient) bound
    → count ≡ least
    → int_lt (threshold_of P coefficient least) count ≡ false
unfolding threshold_of
threshold-not-lt P coefficient bound (pos n) b scales e =
    rw (← e) (ground (arith, (scales n (omega arith)).0, (scales n (omega arith)).1))
threshold-not-lt P coefficient bound (negsuc n) b scales e = absurd (omega arith)

-- With counts from 0 to `bound`, and a factor that scales these counts up to an `int` that leaves
-- room for the slack, the call on a list that is not
-- empty returns the index of a backend in the list whose count is not above the threshold, and no
-- other such backend has a higher score for the client's key. So a backend is always found.
pub sticky_backend-IsWinner :
    (P : Platform) (coefficient : P.Float) (cookie_name : Str) (r : Reactor) (request : Request)
    (infos : List (BackendInfo P.Float)) (bound : ℕ)
    → 0 < length infos
    → bound < 2147483647
    → CountsWithin r bound infos
    → ScalesUp P (factor_of P coefficient) bound
    → (info : BackendInfo P.Float) × IsWinner r
        (threshold_of P coefficient (min_connections r int_max infos))
        (fnv1a (extract_key cookie_name request) fnv_offset)
        infos
        (sticky_backend P coefficient cookie_name r request infos)
        info
unfolding sticky_backend
sticky_backend-IsWinner P coefficient cookie_name r request infos bound n h c scales =
    let (k, x, e, d) = min_connections-some r infos bound n h c in
    select_loop-IsWinner r (threshold_of P coefficient (min_connections r int_max infos))
      (fnv1a (extract_key cookie_name request) fnv_offset) infos k x e
      (threshold-not-lt P coefficient bound (connections_of r x) (All-get_elem? _ infos k c e)
        scales d)
