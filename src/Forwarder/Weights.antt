-- ===== src/Forwarder/Weights.antt =====
-- The weights that `redistribute` of `InverseLoadForwarder` and of `InverseConnectionsForwarder`
-- gives to the backends.
use smartmet_engine_sputnik.Prelude.{
  ℕ, ◌≡◌, refl, sym, ap, ◌∙◌, true, List, some, map, get_elem?, get_elem?-map, if◌then◌else◌,
  Bool-cases, inl, inr, ◌⊎◌, ℤ, pos, negsuc, ◌≤ℤ◌, int_lt, arith,
}
use smartmet_engine_sputnik.Platform.{Platform}
use smartmet_engine_sputnik.Spine.{Reactor}
use smartmet_engine_sputnik.Backend.{BackendInfo}
use smartmet_engine_sputnik.Sticky.{connections_of}
use smartmet_engine_sputnik.Forwarder.{
  ForwardingMode, inverse_load, inverse_connections, Forwarder, sum_of, normalise,
  inverse_load_weight, inverse_connections_weight, redistributed, redistribute,
}

module _ (P : Platform) where
  open P use {Float, zero_f, one_f, of_int, add, mul, div, lt}

  -- Below or the same; a NaN is below nothing.
  abbrev pub AtMost : Float → Float → Type 0
  AtMost x y = (lt x y ≡ true) ⊎ (x ≡ y)

  -- What IEEE 754 has of the order, and of sums, products and quotients that are rounded to the
  -- nearest: rounding keeps the order, a product with a positive finite factor included, even where
  -- it overflows to infinity.
  pub record IsOrdered : Type 1 where
    pub IsFinite : Float → Type 0
    pub zero_lt_one : lt zero_f one_f ≡ true
    pub lt_trans : (x y z : Float) → lt x y ≡ true → lt y z ≡ true → lt x z ≡ true
    pub of_int_natural : (n : ℕ) → AtMost zero_f (of_int (pos n))
    pub of_int_lt : (i j : ℤ) → int_lt i j ≡ true → AtMost (of_int i) (of_int j)
    pub mul_natural :
        (a x : Float) → IsFinite a → lt zero_f a ≡ true → AtMost zero_f x → AtMost zero_f (mul a x)
    pub mul_lt :
        (a x y : Float)
        → IsFinite a
        → lt zero_f a ≡ true
        → AtMost zero_f x
        → lt x y ≡ true
        → AtMost (mul a x) (mul a y)
    pub one_more : (x : Float) → AtMost zero_f x → AtMost one_f (add one_f x)
    pub one_more_lt : (x y : Float) → lt x y ≡ true → AtMost (add one_f x) (add one_f y)
    pub inverse_range :
        (x : Float) → AtMost one_f x → AtMost zero_f (div one_f x) × AtMost (div one_f x) one_f
    pub inverse_lt :
        (x y : Float) → AtMost one_f x → lt x y ≡ true → AtMost (div one_f y) (div one_f x)
    pub share_lt :
        (x y s : Float)
        → AtMost zero_f x
        → lt x y ≡ true
        → AtMost y one_f
        → lt zero_f s ≡ true
        → AtMost (div x s) (div y s)

  -- The weight before the division by the sum; the other classes are not described here.
  abbrev pub raw_weight : ForwardingMode → Reactor → Float → BackendInfo Float → Float
  raw_weight inverse_load r a info = inverse_load_weight P a info
  raw_weight inverse_connections r a info = inverse_connections_weight P r a info
  raw_weight _ r a info = zero_f

  -- `x` is not busier than `y`, in what the class looks at.
  pub data IsFreer (r : Reactor) (x y : BackendInfo Float) : ForwardingMode → Type 0 where
    less_load : AtMost x.load y.load → IsFreer r x y inverse_load
    fewer :
        pos 0 ≤ℤ connections_of r x
        → connections_of r x ≤ℤ connections_of r y
        → IsFreer r x y inverse_connections

  -- The weight at `i` is not below the one at `j`.
  abbrev pub Prefers : List Float → ℕ → ℕ → Type 0
  Prefers ws i j =
      (v : Float) × (w : Float) × (get_elem? ws i ≡ some v) × (get_elem? ws j ≡ some w) × AtMost w v

  module _ (laws : IsOrdered) where
    -- 1 by (1 + a x) is from 0 to 1, and falls as `x` grows.
    inverse : Float → Float → Float
    inverse a x = div one_f (add one_f (mul a x))

    divisor-AtMost :
        (a x : Float)
        → laws.IsFinite a
        → lt zero_f a ≡ true
        → AtMost zero_f x
        → AtMost one_f (add one_f (mul a x))
    divisor-AtMost a x fin h n = laws.one_more (mul a x) (laws.mul_natural a x fin h n)

    inverse-AtMost :
        (a x y : Float)
        → laws.IsFinite a
        → lt zero_f a ≡ true
        → AtMost zero_f x
        → AtMost x y
        → AtMost (inverse a y) (inverse a x)
    unfolding inverse
    inverse-AtMost a x y fin h n (inr e) = inr (ap (inverse a) (sym e))
    inverse-AtMost a x y fin h n (inl l) = elim (laws.mul_lt a x y fin h n l) [
      | inr e ↦ inr (ap (λ p. div one_f (add one_f p)) (sym e))
      | inl l' ↦ elim (laws.one_more_lt (mul a x) (mul a y) l') [
        | inr e ↦ inr (ap (div one_f) (sym e))
        | inl l'' ↦
            laws.inverse_lt (add one_f (mul a x)) (add one_f (mul a y)) (divisor-AtMost a x fin h n)
              l''
      ]
    ]

    inverse-share :
        (a x y s : Float)
        → laws.IsFinite a
        → lt zero_f a ≡ true
        → AtMost zero_f x
        → AtMost zero_f y
        → AtMost x y
        → lt zero_f s ≡ true
        → AtMost (div (inverse a y) s) (div (inverse a x) s)
    unfolding inverse
    inverse-share a x y s fin h nx ny le hs = elim (inverse-AtMost a x y fin h nx le) [
      | inr e ↦ inr (ap (λ w. div w s) e)
      | inl l ↦
          laws.share_lt (inverse a y) (inverse a x) s
            (laws.inverse_range _ (divisor-AtMost a y fin h ny)).0 l
            (laws.inverse_range _ (divisor-AtMost a x fin h nx)).1 hs
    ]

    -- The load from 1 on, of which the weight is made.
    from_one : Float → Float
    from_one load = if lt one_f load then load else one_f

    from_one-natural : (load : Float) → AtMost zero_f (from_one load)
    unfolding from_one
    from_one-natural load = elim (Bool-cases (lt one_f load)) [
      | inl h ↦ inl (rw h (laws.lt_trans zero_f one_f load laws.zero_lt_one h))
      | inr h ↦ inl (rw h laws.zero_lt_one)
    ]

    from_one-AtMost : (x y : Float) → AtMost x y → AtMost (from_one x) (from_one y)
    unfolding from_one
    from_one-AtMost x y (inr e) = inr (ap from_one e)
    from_one-AtMost x y (inl l) = elim (Bool-cases (lt one_f x)) [
      | inl h ↦ inl (rw (h, laws.lt_trans one_f x y h l) l)
      | inr h ↦ elim (Bool-cases (lt one_f y)) [
        | inl h' ↦ inl (rw (h, h') h')
        | inr h' ↦ inr (rw (h, h') refl)
      ]
    ]

    of_int-AtMost : (i j : ℤ) → i ≤ℤ j → AtMost (of_int i) (of_int j)
    of_int-AtMost i j le = elim (Bool-cases (int_lt i j)) [
      | inl h ↦ laws.of_int_lt i j h
      | inr h ↦ inr (ap of_int (ground arith))
    ]

    of_int-natural : (i : ℤ) → pos 0 ≤ℤ i → AtMost zero_f (of_int i)
    of_int-natural (pos n) h = laws.of_int_natural n
    of_int-natural (negsuc n) h = absurd (omega arith)

    -- The freer backend has no smaller share of any sum.
    share-AtMost :
        (r : Reactor) (mode : ForwardingMode) (a s : Float) (x y : BackendInfo Float)
        → laws.IsFinite a
        → lt zero_f a ≡ true
        → lt zero_f s ≡ true
        → IsFreer r x y mode
        → AtMost (div (raw_weight mode r a y) s) (div (raw_weight mode r a x) s)
    unfolding inverse from_one inverse_load_weight inverse_connections_weight
    share-AtMost r _ a s x y fin h hs (less_load le) =
        inverse-share a (from_one x.load) (from_one y.load) s fin h (from_one-natural x.load)
          (from_one-natural y.load) (from_one-AtMost x.load y.load le) hs
    share-AtMost r _ a s x y fin h hs (fewer n le) =
        inverse-share a (of_int (connections_of r x)) (of_int (connections_of r y)) s fin h
          (of_int-natural _ n) (of_int-natural (connections_of r y) (omega (arith, n, le)))
          (of_int-AtMost _ _ le) hs

    redistributed-raw :
        (r : Reactor) (mode : ForwardingMode) (a : Float) (infos : List (BackendInfo Float))
        (old : List Float) {x y : BackendInfo Float}
        → IsFreer r x y mode
        → redistributed P mode r a infos old ≡ normalise P (map (raw_weight mode r a) infos)
    unfolding redistributed
    redistributed-raw r _ a infos old (less_load le) = refl
    redistributed-raw r _ a infos old (fewer n le) = refl

    -- Let arithmetic keep the order as IEEE 754 has it, and let the coefficient be finite and above
    -- 0. If the sum of the weights is above 0, `redistribute` of `InverseConnectionsForwarder` gives
    -- a backend no smaller weight than one with as many or more connections, from 0 on, and that of
    -- `InverseLoadForwarder` one no smaller than that of a backend with the same or a higher load.
    pub redistribute-Prefers :
        (r : Reactor) (f : Forwarder P) (i j : ℕ) {x y : BackendInfo Float}
        → laws.IsFinite f.coefficient
        → lt zero_f f.coefficient ≡ true
        → lt zero_f (sum_of P (map (raw_weight f.mode r f.coefficient) f.infos)) ≡ true
        → get_elem? f.infos i ≡ some x
        → get_elem? f.infos j ≡ some y
        → IsFreer r x y f.mode
        → Prefers (redistribute P r f).distribution i j
    unfolding redistribute normalise
    redistribute-Prefers r f i j {x} {y} fin h hs ex ey freer =
        let raw = raw_weight f.mode r f.coefficient in
        let s = sum_of P (map raw f.infos) in
        let weight : (k : ℕ) (z : BackendInfo Float)
            → get_elem? f.infos k ≡ some z
            → get_elem? (redistribute P r f).distribution k ≡ some (div (raw z) s) =
          λ k z e.
            ap (λ ws. get_elem? ws k)
              (redistributed-raw r f.mode f.coefficient f.infos f.distribution freer)
            ∙ get_elem?-map (λ w. div w s) (map raw f.infos) k (get_elem?-map raw f.infos k e) in
        (
          _,
          _,
          weight i x ex,
          weight j y ey,
          share-AtMost r f.mode f.coefficient s x y fin h hs freer,
        )
