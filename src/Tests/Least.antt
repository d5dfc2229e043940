-- ===== src/Tests/Least.antt =====
-- The choice of the backend with the fewest connections, on a platform whose draws are fair.
use mathlib.Core.List.{foldl}
use smartmet_engine_sputnik.Prelude.{
  ℕ, zero, suc, ◌+◌, ◌≤◌, ◌<◌, ◌≡◌, ◌≢◌, refl, Bool, true, false, ◌||◌, List, [], ◌∷◌, some, map,
  length, get_elem?, is_empty, if◌then◌else◌, ltb, pos, arith,
}
use smartmet_engine_sputnik.Text.{codes, str_eq}
use smartmet_engine_sputnik.Platform.{Platform, IsRandom}
use smartmet_engine_sputnik.Spine.{Reactor}
use smartmet_engine_sputnik.Outcome.{Returns}
use smartmet_engine_sputnik.Forwarder.{Forwarder, least_connections, base_backend, sum_of}
use smartmet_engine_sputnik.Forwarder.Least.{IsFair, IsFewest, bit, base_backend-IsFewest}
use smartmet_engine_sputnik.Tests.Data.{plain, plain-IsRandom, server_a, server_b, info_on}

-- The first index with a weight above 0, or the last index.
abbrev first_positive : List ℕ → ℕ
first_positive [] = 0
first_positive (w ∷ ws) =
    let rest = first_positive ws in if is_empty ws || ltb 0 w then 0 else suc rest

abbrev fair : Platform
fair = record plain { div = λ a b. a; discrete = λ ws g. (first_positive ws, g) }

first_positive-lt : (ws : List ℕ) → 0 < length ws → first_positive ws < length ws
first_positive-lt [] n = n
first_positive-lt (w ∷ []) n = ground arith
first_positive-lt (w ∷ v ∷ ws) n = ground (arith, first_positive-lt (v ∷ ws) (omega arith))

first_positive-positive :
    (ws : List ℕ) (i j w : ℕ)
    → get_elem? ws i ≡ some 0
    → get_elem? ws j ≡ some w
    → ltb 0 w ≡ true
    → first_positive ws ≢ i
first_positive-positive [] i j w z p h e = cc
first_positive-positive (v ∷ ws) zero zero w z p h e = ground arith
first_positive-positive (v ∷ []) zero (suc j) w z p h e = cc
first_positive-positive (v ∷ u ∷ ws) zero (suc j) w z p h e = ground arith
first_positive-positive (v ∷ []) (suc i) j w z p h e = cc
first_positive-positive (v ∷ u ∷ ws) (suc i) zero w z p h e = ground arith
first_positive-positive (v ∷ u ∷ ws) (suc i) (suc j) w z p h e =
    first_positive-positive (u ∷ ws) i j w z p h (ground arith)

sum-le : (bs : List Bool) (n : ℕ) → n ≤ foldl (λ a b. a + b) n (map (bit fair) bs)
sum-le [] n = omega arith
sum-le (true ∷ bs) n = omega (arith, sum-le bs (n + 1))
sum-le (false ∷ bs) n = omega (arith, sum-le bs (n + 0))

sum-lt :
    (bs : List Bool) (j n : ℕ)
    → get_elem? bs j ≡ some true
    → 0 < foldl (λ a b. a + b) n (map (bit fair) bs)
sum-lt [] j n h = absurd (cc)
sum-lt (true ∷ bs) j n h = omega (arith, sum-le bs (n + 1))
sum-lt (false ∷ bs) zero n h = absurd (cc)
sum-lt (false ∷ bs) (suc j) n h = sum-lt bs j (n + 0) h

fair-IsFair : IsFair fair
unfolding sum_of
fair-IsFair = record {
  sum_positive = λ bs j h. ground (arith, sum-lt bs j 0 h);
  zero_share = λ s h. refl;
  one_share = λ bs j h. refl;
  draws_positive = λ ws g i j w z p h. first_positive-positive ws i j w z p h;
}

fair-IsRandom : IsRandom fair
fair-IsRandom = record {
  uniform_range = plain-IsRandom.uniform_range;
  discrete_range = λ ws g h. first_positive-lt ws h;
}

-- The backend `a` answers three requests, every other backend two.
abbrev busy : Reactor
busy = record { request_status = λ host port. if str_eq host (codes "a") then pos 3 else pos 2 }

abbrev least : Forwarder fair
least = record {
  mode = least_connections;
  coefficient = 0;
  cookie_name = [];
  infos = info_on server_a ∷ info_on server_b ∷ [];
  distribution = [];
  generator = 3;
}

base_backend-IsFewest_example :
    Returns
      (base_backend fair busy least)
      (λ (i, f'). IsFewest fair busy (info_on server_a ∷ info_on server_b ∷ []) i)
unfolding str_eq
base_backend-IsFewest_example =
    base_backend-IsFewest fair busy least fair-IsRandom fair-IsFair refl (omega arith)
      (omega arith, (omega arith, tt))
