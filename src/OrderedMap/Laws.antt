-- ===== src/OrderedMap/Laws.antt =====
-- The laws of maps in key order.
use mathlib.Core.Option.{some-injective}
use mathlib.Core.Path.{subst}
use smartmet_engine_sputnik.Prelude.{
  ◌≡◌, refl, true, false, [], ◌∷◌, none, some, if◌then◌else◌, Bool-cases, inl, inr, arith,
}
use smartmet_engine_sputnik.Text.{Str, str_eq, str_lt}
use smartmet_engine_sputnik.Text.Order.{
  str_eq_iff, str_eq_sym, str_lt_total, str_lt_trans, str_lt_irrefl,
}
use smartmet_engine_sputnik.OrderedMap.{OrderedMap, find, has_key, assign, erase, map_values}

-- Every key is above `k`.
abbrev pub Above {ℓ} : {V : Type ℓ} → Str → OrderedMap V → Type 0
Above k [] = Unit
Above k ((j, v) ∷ m) = (str_lt k j ≡ true) × Above k m

-- The keys rise.
abbrev pub IsSorted {ℓ} : {V : Type ℓ} → OrderedMap V → Type 0
IsSorted [] = Unit
IsSorted ((j, v) ∷ m) = Above j m × IsSorted m

module _ {ℓ} {V : Type ℓ} where
  pub Above-trans : (j k : Str) (m : OrderedMap V) → str_lt j k ≡ true → Above k m → Above j m
  Above-trans j k [] h a = tt
  Above-trans j k ((i, v) ∷ m) h a = (str_lt_trans j k i h a.0, Above-trans j k m h a.1)

  pub find-Above : (k : Str) (m : OrderedMap V) → Above k m → find k m ≡ none
  unfolding find
  find-Above k [] a = refl
  find-Above k ((j, v) ∷ m) a = ground (arith, find-Above k m a.1, str_lt_irrefl k, str_eq_iff j k)

  pub has_key-none : (k : Str) (m : OrderedMap V) → find k m ≡ none → has_key k m ≡ false
  unfolding find has_key
  has_key-none k [] e = refl
  has_key-none k ((j, w) ∷ m) e = ground (arith, has_key-none k m)

  pub has_key-some : (k : Str) (m : OrderedMap V) {v : V} → find k m ≡ some v → has_key k m ≡ true
  unfolding find has_key
  has_key-some k [] e = absurd (cc)
  has_key-some k ((j, w) ∷ m) {v} e = ground (arith, has_key-some k m {v = v})

  pub find-assign :
      (k j : Str) (v : V) (m : OrderedMap V)
      → find j (assign k v m) ≡ (if str_eq k j then some v else find j m)
  unfolding find assign
  find-assign k j v [] = refl
  find-assign k j v ((i, w) ∷ m) =
      ground (arith, str_eq_iff i k, str_eq_iff k j, str_eq_iff i j, find-assign k j v m)

  Above-assign :
      (i k : Str) (v : V) (m : OrderedMap V)
      → str_lt i k ≡ true
      → Above i m
      → Above i (assign k v m)
  unfolding assign
  Above-assign i k v [] h a = (h, tt)
  Above-assign i k v ((j, w) ∷ m) h a = ground (arith, Above-assign i k v m h a.1)

  pub assign-IsSorted : (k : Str) (v : V) (m : OrderedMap V) → IsSorted m → IsSorted (assign k v m)
  unfolding assign
  assign-IsSorted k v [] s = (tt, tt)
  assign-IsSorted k v ((j, w) ∷ m) s = ground (
    arith,
    str_eq_iff j k,
    str_eq_sym j k,
    str_lt_total k j,
    Above-trans k j m,
    Above-assign j k v m,
    assign-IsSorted k v m s.1,
  )

  Above-erase : (i k : Str) (m : OrderedMap V) → Above i m → Above i (erase k m)
  unfolding erase
  Above-erase i k [] a = tt
  Above-erase i k ((j, w) ∷ m) a = ground (arith, Above-erase i k m a.1)

  pub erase-IsSorted : (k : Str) (m : OrderedMap V) → IsSorted m → IsSorted (erase k m)
  unfolding erase
  erase-IsSorted k [] s = tt
  erase-IsSorted k ((j, w) ∷ m) s = ground (arith, Above-erase j k m s.0, erase-IsSorted k m s.1)

  pub find-erase :
      (k j : Str) (m : OrderedMap V)
      → IsSorted m
      → find j (erase k m) ≡ (if str_eq k j then none else find j m)
  unfolding find erase
  find-erase k j [] s = ground arith
  find-erase k j ((i, w) ∷ m) s = ground (
    arith,
    str_eq_iff i k,
    str_eq_iff k j,
    str_eq_iff i j,
    find-erase k j m s.1,
    find-Above i m s.0,
  )

  pub find-map_values :
      (f : V → V) (k : Str) (m : OrderedMap V)
      → find k (map_values f m) ≡ elim (find k m) [ none ↦ none | some v ↦ some (f v) ]
  unfolding find map_values
  find-map_values f k [] = refl
  find-map_values f k ((j, w) ∷ m) = ground (arith, find-map_values f k m)

  Above-map_values : (f : V → V) (k : Str) (m : OrderedMap V) → Above k m → Above k (map_values f m)
  unfolding map_values
  Above-map_values f k [] a = tt
  Above-map_values f k ((j, w) ∷ m) a = (a.0, Above-map_values f k m a.1)

  pub map_values-IsSorted : (f : V → V) (m : OrderedMap V) → IsSorted m → IsSorted (map_values f m)
  unfolding map_values
  map_values-IsSorted f [] s = tt
  map_values-IsSorted f ((j, w) ∷ m) s = (Above-map_values f j m s.0, map_values-IsSorted f m s.1)

  -- Every value of the map satisfies `Q`.
  abbrev pub AllValues {κ} : (V → Type κ) → OrderedMap V → Type κ
  AllValues Q [] = Unit
  AllValues Q ((j, w) ∷ m) = Q w × AllValues Q m

  pub AllValues-assign {κ} :
      (Q : V → Type κ) (k : Str) (v : V) (m : OrderedMap V)
      → Q v
      → AllValues Q m
      → AllValues Q (assign k v m)
  unfolding assign
  AllValues-assign Q k v [] h a = (h, tt)
  AllValues-assign Q k v ((j, w) ∷ m) h a = elim (Bool-cases (str_eq j k)) [
    | inl e ↦ rw e (h, a.1)
    | inr n ↦ elim (Bool-cases (str_lt k j)) [
      | inl l ↦ rw (n, l) (h, a)
      | inr g ↦ rw (n, g) (a.0, AllValues-assign Q k v m h a.1)
    ]
  ]

  pub AllValues-erase {κ} :
      (Q : V → Type κ) (k : Str) (m : OrderedMap V) → AllValues Q m → AllValues Q (erase k m)
  unfolding erase
  AllValues-erase Q k [] a = tt
  AllValues-erase Q k ((j, w) ∷ m) a = elim (Bool-cases (str_eq j k)) [
    | inl e ↦ rw e a.1
    | inr n ↦ rw n (a.0, AllValues-erase Q k m a.1)
  ]

  pub AllValues-map {κ} :
      (Q R : V → Type κ) (f : V → V)
      → ((v : V) → Q v → R (f v))
      → (m : OrderedMap V) → AllValues Q m
      → AllValues R (map_values f m)
  unfolding map_values
  AllValues-map Q R f h [] a = tt
  AllValues-map Q R f h ((j, w) ∷ m) a = (h w a.0, AllValues-map Q R f h m a.1)

  pub AllValues-map_values {κ} :
      (Q : V → Type κ) (f : V → V)
      → ((v : V) → Q v → Q (f v))
      → (m : OrderedMap V) → AllValues Q m
      → AllValues Q (map_values f m)
  AllValues-map_values Q f h m a = AllValues-map Q Q f h m a

  pub AllValues-find {κ} :
      (Q : V → Type κ) (k : Str) (m : OrderedMap V) {v : V}
      → AllValues Q m
      → find k m ≡ some v
      → Q v
  unfolding find
  AllValues-find Q k [] a e = absurd (cc)
  AllValues-find Q k ((j, w) ∷ m) a e = elim (Bool-cases (str_eq j k)) [
    | inl y ↦ subst Q (some-injective _ _ (rw y at e)) a.0
    | inr n ↦ AllValues-find Q k m a.1 (rw n at e)
  ]
