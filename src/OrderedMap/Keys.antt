-- ===== src/OrderedMap/Keys.antt =====
-- The keys of a map in key order.
use smartmet_engine_sputnik.Prelude.{
  ◌≡◌, refl, ap, List, [], ◌∷◌, some, Bool-cases, inl, inr, arith,
}
use smartmet_engine_sputnik.Text.{Str, str_eq, str_lt}
use smartmet_engine_sputnik.Text.Order.{str_eq_iff}
use smartmet_engine_sputnik.OrderedMap.{OrderedMap, find, assign, map_values, set_insert}
use smartmet_engine_sputnik.OrderedMap.Laws.{IsSorted, Above-trans, find-Above}

module _ {ℓ} {V : Type ℓ} where
  abbrev pub keys : OrderedMap V → List Str
  keys [] = []
  keys ((k, v) ∷ m) = k ∷ keys m

  pub keys-assign :
      (k : Str) (v : V) (m : OrderedMap V) → keys (assign k v m) ≡ set_insert k (keys m)
  unfolding assign set_insert
  keys-assign k v [] = refl
  keys-assign k v ((j, w) ∷ m) = ground (arith, str_eq_iff j k, keys-assign k v m)

  pub keys-map_values : (f : V → V) (m : OrderedMap V) → keys (map_values f m) ≡ keys m
  unfolding map_values
  keys-map_values f [] = refl
  keys-map_values f ((j, w) ∷ m) = ap (◌∷◌ j) (keys-map_values f m)

  -- A new value for a key that is there.
  pub keys-assign_known :
      (k : Str) (v : V) (m : OrderedMap V) {w : V}
      → IsSorted m
      → find k m ≡ some w
      → keys (assign k v m) ≡ keys m
  unfolding assign find
  keys-assign_known k v [] {w} s e = absurd (cc)
  keys-assign_known k v ((j, u) ∷ m) {w} s e = elim (Bool-cases (str_eq j k)) [
    | inl same ↦ ground (arith, same, str_eq_iff j k)
    | inr other ↦ elim (Bool-cases (str_lt k j)) [
      | inl less ↦ absurd (ground (arith, other, e, find-Above k m (Above-trans k j m less s.0)))
      | inr more ↦
          rw (other, more)
            (ap (◌∷◌ j) (keys-assign_known k v m {w = w} s.1 (ground (arith, other, e))))
    ]
  ]
