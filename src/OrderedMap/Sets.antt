-- ===== src/OrderedMap/Sets.antt =====
-- The laws of sets in order.
use smartmet_engine_sputnik.Prelude.{◌≡◌, refl, true, false, not, ◌||◌, ◌&&◌, List, [], ◌∷◌, arith}
use smartmet_engine_sputnik.Text.{Str, str_eq, str_lt}
use smartmet_engine_sputnik.Text.Order.{
  str_eq_iff, str_eq_sym, str_lt_total, str_lt_trans, str_lt_irrefl,
}
use smartmet_engine_sputnik.OrderedMap.{set_insert, set_erase, set_contains}

-- The members of a set are above `k`.
abbrev pub AllAbove : Str → List Str → Type 0
AllAbove k [] = Unit
AllAbove k (j ∷ s) = (str_lt k j ≡ true) × AllAbove k s

-- The members of a set rise.
abbrev pub IsRising : List Str → Type 0
IsRising [] = Unit
IsRising (j ∷ s) = AllAbove j s × IsRising s

AllAbove-trans : (j k : Str) (s : List Str) → str_lt j k ≡ true → AllAbove k s → AllAbove j s
AllAbove-trans j k [] h a = tt
AllAbove-trans j k (i ∷ s) h a = (str_lt_trans j k i h a.0, AllAbove-trans j k s h a.1)

AllAbove-set_insert :
    (i k : Str) (s : List Str) → str_lt i k ≡ true → AllAbove i s → AllAbove i (set_insert k s)
unfolding set_insert
AllAbove-set_insert i k [] h a = (h, tt)
AllAbove-set_insert i k (j ∷ s) h a = ground (arith, AllAbove-set_insert i k s h a.1)

pub set_insert-IsRising : (k : Str) (s : List Str) → IsRising s → IsRising (set_insert k s)
unfolding set_insert
set_insert-IsRising k [] r = (tt, tt)
set_insert-IsRising k (j ∷ s) r = ground (
  arith,
  str_eq_iff j k,
  str_eq_sym j k,
  str_lt_total k j,
  AllAbove-trans k j s,
  AllAbove-set_insert j k s,
  set_insert-IsRising k s r.1,
)

AllAbove-set_erase : (i k : Str) (s : List Str) → AllAbove i s → AllAbove i (set_erase k s)
unfolding set_erase
AllAbove-set_erase i k [] a = tt
AllAbove-set_erase i k (j ∷ s) a = ground (arith, AllAbove-set_erase i k s a.1)

pub set_erase-IsRising : (k : Str) (s : List Str) → IsRising s → IsRising (set_erase k s)
unfolding set_erase
set_erase-IsRising k [] r = tt
set_erase-IsRising k (j ∷ s) r =
    ground (arith, AllAbove-set_erase j k s r.0, set_erase-IsRising k s r.1)

contains-AllAbove : (k : Str) (s : List Str) → AllAbove k s → set_contains k s ≡ false
unfolding set_contains
contains-AllAbove k [] a = refl
contains-AllAbove k (j ∷ s) a =
    ground (arith, contains-AllAbove k s a.1, str_lt_irrefl k, str_eq_iff j k)

pub set_contains-set_erase :
    (k j : Str) (s : List Str)
    → IsRising s
    → set_contains j (set_erase k s) ≡ (set_contains j s && not (str_eq k j))
unfolding set_contains set_erase
set_contains-set_erase k j [] r = refl
set_contains-set_erase k j (i ∷ s) r = ground (
  arith,
  str_eq_iff i k,
  str_eq_iff k j,
  str_eq_iff i j,
  contains-AllAbove i s r.0,
  set_contains-set_erase k j s r.1,
)

pub set_contains-set_insert :
    (k j : Str) (s : List Str) → set_contains j (set_insert k s) ≡ (str_eq k j || set_contains j s)
unfolding set_contains set_insert
set_contains-set_insert k j [] = ground arith
set_contains-set_insert k j (i ∷ s) =
    ground (arith, str_eq_iff i k, str_eq_iff k j, str_eq_iff i j, set_contains-set_insert k j s)
