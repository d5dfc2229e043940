-- ===== src/Tests/Agreement.antt =====
-- Two frontends that choose between the same two backends.
use mathlib.Core.Option.{some-injective}
use smartmet_engine_sputnik.Prelude.{
  ℕ, zero, suc, ◌≡◌, refl, sym, ap, inl, inr, ◌⊎◌, false, List, [], ◌∷◌, some, get_elem?, ◌==◌,
  arith,
}
use smartmet_engine_sputnik.Text.{codes, to_string, digits}
use smartmet_engine_sputnik.Backend.{BackendInfo}
use smartmet_engine_sputnik.Sticky.{
  fnv1a, fnv_offset, extract_key, sticky_backend, score_of, factor_of, cookie_value, effective_ip,
  user_agent,
}
use smartmet_engine_sputnik.Sticky.Order.{
  IsIn, IsSame, Within, DistinctScores, sticky_backend-IsSame,
}
use smartmet_engine_sputnik.Tests.Data.{plain, calm, request, server_a, server_b, info_on}

abbrev one_order : List (BackendInfo ℕ)
one_order = info_on server_a ∷ info_on server_b ∷ []

-- The other frontend has heard of another load.
abbrev other_order : List (BackendInfo ℕ)
other_order = info_on server_b ∷ record (info_on server_a) { load = 3 } ∷ []

abbrev key_hash : ℕ
key_hash = fnv1a (extract_key (codes "id") request) fnv_offset

two : (a b x : BackendInfo ℕ) → IsIn x (a ∷ b ∷ []) → (x ≡ a) ⊎ (x ≡ b)
two a b x (zero, e) = inl (sym (some-injective _ _ e))
two a b x (suc zero, e) = inr (sym (some-injective _ _ e))
two a b x (suc (suc k), e) = absurd (cc)

other_order-one_order : Within one_order other_order
other_order-one_order x i = elim (two _ _ x i) [
  | inl e ↦ (record (info_on server_a) { load = 3 }, (1, refl), rw e (refl, refl))
  | inr e ↦ (info_on server_b, (0, refl), rw e (refl, refl))
]

one_order-other_order : Within other_order one_order
one_order-other_order x i = elim (two _ _ x i) [
  | inl e ↦ (info_on server_b, (1, refl), rw e (refl, refl))
  | inr e ↦ (info_on server_a, (0, refl), rw e (refl, refl))
]

scores_differ :
    (score_of key_hash (info_on server_a) == score_of key_hash (info_on server_b)) ≡ false
unfolding score_of fnv1a extract_key cookie_value effective_ip user_agent to_string digits
scores_differ = refl

one_order-DistinctScores : DistinctScores key_hash one_order
one_order-DistinctScores x y i j e = elim (two _ _ x i) [
  | inl p ↦ elim (two _ _ y j) [
    | inl q ↦ rw (p, q) (refl, refl)
    | inr q ↦
        absurd
          (ground (arith, scores_differ, e, ap (score_of key_hash) p, ap (score_of key_hash) q))
  ]
  | inr p ↦ elim (two _ _ y j) [
    | inl q ↦
        absurd
          (ground (arith, scores_differ, e, ap (score_of key_hash) p, ap (score_of key_hash) q))
    | inr q ↦ rw (p, q) (refl, refl)
  ]
]

sticky_backend-IsSame_example :
    (x : BackendInfo ℕ) × (y : BackendInfo ℕ) × (get_elem? one_order
        (sticky_backend plain 2 (codes "id") calm request one_order)
      ≡ some x)
    × (get_elem? other_order (sticky_backend plain 2 (codes "id") calm request other_order)
        ≡ some y)
    × IsSame x y
unfolding factor_of
sticky_backend-IsSame_example =
    sticky_backend-IsSame plain 2 (codes "id") calm request one_order other_order 1 (omega arith)
      (omega arith) (omega arith) (omega arith) (omega arith) (λ m h. (omega arith, omega arith))
      other_order-one_order one_order-other_order one_order-DistinctScores
