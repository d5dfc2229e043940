-- ===== src/Forwarder/Least.antt =====
-- The choice of `LeastConnectionsForwarder`.
use mathlib.Core.Path.{subst}
use smartmet_engine_sputnik.Prelude.{
  ℕ, suc, ◌<◌, ◌≡◌, ◌≢◌, refl, sym, ap, ◌∙◌, Bool, true, false, List, [], ◌∷◌, some, map, length,
  length-map, get_elem?, get_elem?-lt, get_elem?-map, All, if◌then◌else◌, Bool-cases, inl, inr, ◌⊎◌,
  ℤ, pos, negsuc, ◌≤ℤ◌, int_lt, int_eq, int_min, int_eq_iff, arith,
}
use smartmet_engine_sputnik.Platform.{Platform, IsRandom}
use smartmet_engine_sputnik.Spine.{Reactor}
use smartmet_engine_sputnik.Outcome.{Returns}
use smartmet_engine_sputnik.Backend.{BackendInfo}
use smartmet_engine_sputnik.Sticky.{connections_of}
use smartmet_engine_sputnik.Forwarder.{
  Forwarder, least_connections, least_count, least_weight, least_weights, normalise, sum_of,
  redistributed, redistribute, rebalances, rebalance, base_backend,
}

module _ {F : Type 0} (r : Reactor) where
  -- Some backend of the list has this count.
  abbrev pub IsMet : List (BackendInfo F) → ℤ → Type 0
  IsMet xs m = (j : ℕ) × (x : BackendInfo F) × (get_elem? xs j ≡ some x) × (connections_of r x ≡ m)

  IsMet-cons :
      (x : BackendInfo F) (xs : List (BackendInfo F)) (m : ℤ) → IsMet xs m → IsMet (x ∷ xs) m
  IsMet-cons x xs m (j, y, e, c) = (suc j, y, e, c)

  -- What the loop ends with, from a count `least` that is not negative.
  abbrev IsLeast : List (BackendInfo F) → ℤ → ℤ → Type 0
  IsLeast xs least m =
      (int_lt least m ≡ false)
      × All (λ x. int_lt (connections_of r x) m ≡ false) xs
      × ((m ≡ least) ⊎ IsMet xs m)

  IsLeast-cons :
      (x : BackendInfo F) (xs : List (BackendInfo F)) (least m : ℤ)
      → IsLeast xs (int_min least (connections_of r x)) m
      → IsLeast (x ∷ xs) least m
  IsLeast-cons x xs least m (low, all_low, inr met) =
      (ground (arith, low), (ground (arith, low), all_low), inr (IsMet-cons x xs m met))
  IsLeast-cons x xs least m (low, all_low, inl e) =
      elim (Bool-cases (int_lt (connections_of r x) least)) [
        | inl less ↦ (
          ground (arith, low),
          (ground (arith, low), all_low),
          inr (0, x, refl, ground (arith, e)),
        )
        | inr more ↦ (ground (arith, low), (ground (arith, low), all_low), inl (ground (arith, e)))
      ]

  least_count-step :
      (x : BackendInfo F) (xs : List (BackendInfo F)) (least : ℤ)
      → int_lt least (pos 0) ≡ false
      → least_count r least (x ∷ xs) ≡ least_count r (int_min least (connections_of r x)) xs
  unfolding least_count
  least_count-step x xs least h = rw h refl

  least_count-IsLeast :
      (xs : List (BackendInfo F)) (least : ℤ)
      → int_lt least (pos 0) ≡ false
      → All (λ x. pos 0 ≤ℤ connections_of r x) xs
      → IsLeast xs least (least_count r least xs)
  unfolding least_count
  least_count-IsLeast [] least h a = (ground arith, tt, inl refl)
  least_count-IsLeast (x ∷ xs) least h a =
      subst (IsLeast (x ∷ xs) least) (sym (least_count-step x xs least h)) (
        IsLeast-cons x xs least _
          (least_count-IsLeast xs (int_min least (connections_of r x)) (ground (arith, a.0)) a.1))

  -- The count that the first loop finds is the least one.
  least_count-least :
      (xs : List (BackendInfo F))
      → 0 < length xs
      → All (λ x. pos 0 ≤ℤ connections_of r x) xs
      → All (λ x. int_lt (connections_of r x) (least_count r (negsuc 0) xs) ≡ false) xs
        × IsMet xs (least_count r (negsuc 0) xs)
  unfolding least_count
  least_count-least [] n a = absurd (omega arith)
  least_count-least (x ∷ xs) n a =
      let (low, all_low, which) =
        least_count-IsLeast xs (connections_of r x) (ground (arith, a.0)) a.1 in
      ((low, all_low), elim which [ inl e ↦ (0, x, refl, sym e) | inr met ↦ IsMet-cons x xs _ met ])

module _ (P : Platform) where
  open P use {Float, zero_f, one_f, lt, div}

  abbrev pub bit : Bool → Float
  bit b = if b then one_f else zero_f

  -- What holds of weights 0 and 1 in IEEE arithmetic, and of a distribution by its documentation: a
  -- sum with a 1 is above 0, 0 by it is 0, 1 by it is above 0; and an index with the weight 0 is
  -- not drawn if some weight is above 0.
  pub record IsFair : Type 0 where
    pub sum_positive :
        (bs : List Bool) (j : ℕ)
        → get_elem? bs j ≡ some true
        → lt zero_f (sum_of P (map bit bs)) ≡ true
    pub zero_share : (s : Float) → lt zero_f s ≡ true → div zero_f s ≡ zero_f
    pub one_share :
        (bs : List Bool) (j : ℕ)
        → get_elem? bs j ≡ some true
        → lt zero_f (div one_f (sum_of P (map bit bs))) ≡ true
    pub draws_positive :
        (ws : List Float) (g : P.Generator) (i j : ℕ) (w : Float)
        → get_elem? ws i ≡ some zero_f
        → get_elem? ws j ≡ some w
        → lt zero_f w ≡ true
        → (P.discrete ws g).0 ≢ i

  module _ (r : Reactor) where
    -- A backend of the list, at this index, such that none has fewer connections.
    pub record IsFewest (infos : List (BackendInfo Float)) (i : ℕ) : Type 0 where
      pub info : BackendInfo Float
      pub found : get_elem? infos i ≡ some info
      pub fewest : All (λ x. int_lt (connections_of r x) (connections_of r info) ≡ false) infos

    flag : ℤ → BackendInfo Float → Bool
    flag m x = int_eq (connections_of r x) m

    least_weight-bit :
        (m : ℤ) (infos : List (BackendInfo Float))
        → map (least_weight P r m) infos ≡ map bit (map (flag m) infos)
    unfolding least_weight flag
    least_weight-bit m [] = refl
    least_weight-bit m (x ∷ infos) = ap (◌∷◌ (bit (flag m x))) (least_weight-bit m infos)

    -- The backends with the least count.
    flags : List (BackendInfo Float) → List Bool
    flags infos = map (flag (least_count r (negsuc 0) infos)) infos

    total : List (BackendInfo Float) → Float
    total infos = sum_of P (map bit (flags infos))

    least_weights-shares :
        (infos : List (BackendInfo Float)) (j : ℕ)
        → IsFair
        → get_elem? (flags infos) j ≡ some true
        → least_weights P r infos ≡ map (λ w. div w (total infos)) (map bit (flags infos))
    unfolding least_weights normalise flags total
    least_weights-shares infos j fair h =
        rw (least_weight-bit (least_count r (negsuc 0) infos) infos)
          (rw (fair.sum_positive (flags infos) j h) refl)

    get_elem?-shares :
        (infos : List (BackendInfo Float)) (i j : ℕ) {b : Bool}
        → IsFair
        → get_elem? (flags infos) j ≡ some true
        → get_elem? (flags infos) i ≡ some b
        → get_elem? (least_weights P r infos) i ≡ some (div (bit b) (total infos))
    get_elem?-shares infos i j {b} fair h e =
        ap (λ ws. get_elem? ws i) (least_weights-shares infos j fair h)
        ∙ get_elem?-map _ (map bit (flags infos)) i (get_elem?-map bit (flags infos) i e)

    -- An index whose backend does not have the least count is not drawn.
    draws-flagged :
        (infos : List (BackendInfo Float)) (g : P.Generator) (j : ℕ)
        → IsFair
        → get_elem? (flags infos) j ≡ some true
        → get_elem? (flags infos) (P.discrete (least_weights P r infos) g).0 ≢ some false
    unfolding total
    draws-flagged infos g j fair h e =
        let i = (P.discrete (least_weights P r infos) g).0 in
        fair.draws_positive (least_weights P r infos) g i j (div one_f (total infos))
          (get_elem?-shares infos i j fair h e
            ∙ ap some (fair.zero_share (total infos) (fair.sum_positive (flags infos) j h)))
          (get_elem?-shares infos j j fair h h) (fair.one_share (flags infos) j h) refl

    draw-IsFewest :
        (infos : List (BackendInfo Float)) (g : P.Generator)
        → IsRandom P
        → IsFair
        → 0 < length infos
        → All (λ x. pos 0 ≤ℤ connections_of r x) infos
        → IsFewest infos (P.discrete (least_weights P r infos) g).0
    unfolding flags flag
    draw-IsFewest infos g laws fair n a =
        let m = least_count r (negsuc 0) infos in
        let (low, (j, x, e, c)) = least_count-least r infos n a in
        let hit : get_elem? (flags infos) j ≡ some true =
          get_elem?-map (flag m) infos j e ∙ ap some ((int_eq_iff (connections_of r x) m).1 c) in
        let size : length (least_weights P r infos) ≡ length infos =
          ap length (least_weights-shares infos j fair hit)
          ∙ length-map (map bit (flags infos)) _
          ∙ length-map (flags infos) bit
          ∙ length-map infos (flag m) in
        let (y, e') =
          get_elem?-lt infos (P.discrete (least_weights P r infos) g).0
            (ground (arith, size, laws.discrete_range (least_weights P r infos) g)) in
        elim (Bool-cases (flag m y)) [
          | inl same ↦ record {
            info = y;
            found = e';
            fewest =
                subst (λ k. All (λ z. int_lt (connections_of r z) k ≡ false) infos)
                  (sym ((int_eq_iff (connections_of r y) m).0 same)) low;
          }
          | inr differs ↦ absurd (
              draws-flagged infos g j fair hit
                (get_elem?-map (flag m) infos _ e' ∙ ap some differs))
        ]

    distribution-least :
        (f : Forwarder P)
        → f.mode ≡ least_connections
        → (rebalance P r f).distribution ≡ least_weights P r f.infos
    unfolding rebalance redistribute rebalances redistributed
    distribution-least f e = rw e refl

    -- If random draws are in the documented ranges, weights are fair, and the counts not negative:
    -- `LeastConnectionsForwarder` returns the index of a backend such that none in its list, which
    -- is not empty, has fewer connections.
    pub base_backend-IsFewest :
        (f : Forwarder P)
        → IsRandom P
        → IsFair
        → f.mode ≡ least_connections
        → 0 < length f.infos
        → All (λ x. pos 0 ≤ℤ connections_of r x) f.infos
        → Returns (base_backend P r f) (λ (i, f'). IsFewest f.infos i)
    unfolding base_backend
    base_backend-IsFewest f laws fair e n a =
        let g = (rebalance P r f).generator in
        (
          _,
          refl,
          subst (λ ws. IsFewest f.infos (P.discrete ws g).0) (sym (distribution-least f e))
              (draw-IsFewest f.infos g laws fair n a),
        )
