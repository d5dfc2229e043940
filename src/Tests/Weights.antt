-- ===== src/Tests/Weights.antt =====
-- The weights by connections, on a platform of thousandths, where a coefficient counts ones.
use native.Mathlib.Nat.{le-div_iff_mul-le, div-mul-le_self, mul-le-mul_left}
use smartmet_engine_sputnik.Prelude.{
  ℕ, ◌+◌, ◌*◌, ◌/◌, ◌≤◌, ◌<◌, ◌≡◌, refl, [], ◌∷◌, if◌then◌else◌, inl, inr, Bool-cases, ltb, pos,
  negsuc, arith,
}
use smartmet_engine_sputnik.Text.{codes, str_eq}
use smartmet_engine_sputnik.Platform.{Platform}
use smartmet_engine_sputnik.Spine.{Reactor}
use smartmet_engine_sputnik.Forwarder.{
  Forwarder, inverse_connections, redistribute, redistributed, sum_of, normalise,
  inverse_connections_weight,
}
use smartmet_engine_sputnik.Forwarder.Weights.{
  AtMost, IsOrdered, Prefers, fewer, redistribute-Prefers,
}
use smartmet_engine_sputnik.Tests.Data.{plain, server_a, server_b, info_on}

abbrev thousandths : Platform
thousandths = record plain {
  one_f = 1000;
  two_f = 2000;
  of_int = λ a. elim a [ pos n ↦ n * 1000 | negsuc n ↦ 0 ];
  div = λ a b. a * 1000 / b;
}

le-AtMost : (x y : ℕ) → x ≤ y → AtMost thousandths x y
le-AtMost x y h = elim (Bool-cases (ltb x y)) [ inl l ↦ inl l | inr g ↦ inr (ground (arith, g, h)) ]

AtMost-le : (x y : ℕ) → AtMost thousandths x y → x ≤ y
AtMost-le x y (inl l) = ground (arith, l)
AtMost-le x y (inr e) = omega (arith, e)

div-le_left : (a b s : ℕ) → 0 < s → a ≤ b → a / s ≤ b / s
div-le_left a b s n h = (le-div_iff_mul-le n).1 (omega (arith, div-mul-le_self a s, h))

div-le_right : (c x y : ℕ) → 0 < x → x ≤ y → c / y ≤ c / x
div-le_right c x y n h =
    (le-div_iff_mul-le n).1 (omega (arith, div-mul-le_self c y, mul-le-mul_left (c / y) h))

-- All values are finite.
thousandths-IsOrdered : IsOrdered thousandths
thousandths-IsOrdered = record {
  IsFinite = λ x. Unit;
  zero_lt_one = refl;
  lt_trans = λ x y z l l'. ground (arith, l, l');
  of_int_natural = λ n. le-AtMost 0 (n * 1000) (omega arith);
  of_int_lt = λ i j l. le-AtMost _ _ (ground (arith, l));
  mul_natural = λ a x fin h n. le-AtMost 0 (a * x) (omega arith);
  mul_lt = λ a x y fin h n l. le-AtMost (a * x) (a * y) (mul-le-mul_left a (AtMost-le x y (inl l)));
  one_more = λ x n. le-AtMost 1000 (1000 + x) (omega arith);
  one_more_lt = λ x y l. le-AtMost (1000 + x) (1000 + y) (omega (arith, AtMost-le x y (inl l)));
  inverse_range = λ x h. (
    le-AtMost 0 _ (omega arith),
    le-AtMost _ 1000 (div-le_right 1000000 1000 x (omega arith) (AtMost-le 1000 x h)),
  );
  inverse_lt = λ x y h l.
      le-AtMost _ _
        (div-le_right 1000000 x y (omega (arith, AtMost-le 1000 x h)) (AtMost-le x y (inl l)));
  share_lt = λ x y s n l h hs. le-AtMost _ _ (
      div-le_left (x * 1000) (y * 1000) s (ground (arith, hs))
        (omega (arith, AtMost-le x y (inl l))));
}

-- The backend `a` answers three requests, every other backend one.
abbrev busy : Reactor
busy = record { request_status = λ host port. if str_eq host (codes "a") then pos 3 else pos 1 }

abbrev two_servers : Forwarder thousandths
two_servers = record {
  mode = inverse_connections;
  coefficient = 2;
  cookie_name = [];
  infos = info_on server_a ∷ info_on server_b ∷ [];
  distribution = [];
  generator = 3;
}

shares : (redistribute thousandths busy two_servers).distribution ≡ 298 ∷ 701 ∷ []
unfolding redistribute redistributed normalise sum_of inverse_connections_weight str_eq
shares = refl

redistribute-Prefers_example :
    Prefers thousandths (redistribute thousandths busy two_servers).distribution 1 0
unfolding str_eq sum_of inverse_connections_weight thousandths-IsOrdered
redistribute-Prefers_example =
    redistribute-Prefers thousandths thousandths-IsOrdered busy two_servers 1 0 tt refl refl refl
      refl (fewer (omega arith) (omega arith))
