-- ===== src/Sticky/Order.antt =====
-- The choice of a backend for a client does not depend on the order of the backends, nor on the
-- loads that a frontend has heard of.
use mathlib.Core.Path.{subst}
use smartmet_engine_sputnik.Prelude.{
  ℕ, zero, suc, ◌<◌, ◌≤◌, ◌≡◌, refl, sym, ap, ◌∙◌, List, [], ◌∷◌, some, length, get_elem?,
  All-get_elem?, ℤ, pos, negsuc, ◌≤ℤ◌, int_lt, int_min, arith,
}
use smartmet_engine_sputnik.Text.{Str}
use smartmet_engine_sputnik.Platform.{Platform}
use smartmet_engine_sputnik.Spine.{Reactor, Request}
use smartmet_engine_sputnik.Backend.{BackendInfo}
use smartmet_engine_sputnik.Sticky.Winner.{
  IsEligible, IsWinner, CountsWithin, ScalesUp, min_connections-some, sticky_backend-IsWinner,
}
use smartmet_engine_sputnik.Sticky.{
  connections_of, min_connections, threshold_of, factor_of, score_of, sticky_backend, fnv1a,
  fnv_offset, extract_key, int_max,
}

int_antisym : (a b : ℤ) → a ≤ℤ b → b ≤ℤ a → a ≡ b
int_antisym (pos a) (pos b) h k = ap pos (omega arith)
int_antisym (negsuc a) (negsuc b) h k = ap negsuc (omega arith)
int_antisym (pos a) (negsuc b) h k = absurd (omega arith)
int_antisym (negsuc a) (pos b) h k = absurd (omega arith)

module _ {F : Type 0} where
  -- The same host and port.
  abbrev pub IsSame : BackendInfo F → BackendInfo F → Type 0
  IsSame x y = (x.host_name ≡ y.host_name) × (x.port ≡ y.port)

  abbrev pub IsIn : BackendInfo F → List (BackendInfo F) → Type 0
  IsIn x xs = (k : ℕ) × (get_elem? xs k ≡ some x)

  -- Every backend of the first list is in the second.
  abbrev pub Within : List (BackendInfo F) → List (BackendInfo F) → Type 0
  Within xs ys = (x : BackendInfo F) → IsIn x xs → (y : BackendInfo F) × IsIn y ys × IsSame x y

  -- No two backends of the list have the same score.
  abbrev pub DistinctScores : ℕ → List (BackendInfo F) → Type 0
  DistinctScores key_hash xs =
      (x y : BackendInfo F)
      → IsIn x xs
      → IsIn y xs
      → score_of key_hash x ≡ score_of key_hash y
      → IsSame x y

  connections_of-IsSame :
      (r : Reactor) (x y : BackendInfo F) → IsSame x y → connections_of r x ≡ connections_of r y
  connections_of-IsSame r x y s = rw (s.0, s.1) refl

  score_of-IsSame :
      (key_hash : ℕ) (x y : BackendInfo F) → IsSame x y → score_of key_hash x ≡ score_of key_hash y
  unfolding score_of
  score_of-IsSame key_hash x y s = rw (s.0, s.1) refl

  min_connections-le_start :
      (r : Reactor) (xs : List (BackendInfo F)) (least : ℤ) → min_connections r least xs ≤ℤ least
  unfolding min_connections
  min_connections-le_start r [] least = omega arith
  min_connections-le_start r (x ∷ xs) least =
      ground (arith, min_connections-le_start r xs (int_min least (connections_of r x)))

  min_connections-le :
      (r : Reactor) (xs : List (BackendInfo F)) (least : ℤ) {x : BackendInfo F}
      → IsIn x xs
      → min_connections r least xs ≤ℤ connections_of r x
  unfolding min_connections
  min_connections-le r [] least (k, e) = absurd (cc)
  min_connections-le r (y ∷ xs) least {x} (zero, e) =
      ground (arith, e, min_connections-le_start r xs (int_min least (connections_of r y)))
  min_connections-le r (y ∷ xs) least (suc k, e) =
      min_connections-le r xs (int_min least (connections_of r y)) (k, e)

  min_connections-Within :
      (r : Reactor) (xs ys : List (BackendInfo F)) (bound : ℕ)
      → 0 < length xs
      → bound < 2147483647
      → CountsWithin r bound xs
      → Within xs ys
      → min_connections r int_max ys ≤ℤ min_connections r int_max xs
  min_connections-Within r xs ys bound n h c w =
      let (k, x, e, d) = min_connections-some r xs bound n h c in
      let (y, i, s) = w x (k, e) in
      let same = connections_of-IsSame r x y s in
      subst (λ m. min_connections r int_max ys ≤ℤ m) (sym same ∙ d)
        (min_connections-le r ys int_max i)

  -- The winner of one list scores no more than that of the other.
  score-le :
      (r : Reactor) (threshold : ℤ) (key_hash : ℕ) (xs ys : List (BackendInfo F)) (i j : ℕ)
      (x y : BackendInfo F)
      → Within xs ys
      → IsWinner r threshold key_hash xs i x
      → IsWinner r threshold key_hash ys j y
      → score_of key_hash x ≤ score_of key_hash y
  score-le r threshold key_hash xs ys i j x y w v v' =
      let (x', (k, e), s) = w x (i, v.found) in
      let eligible : IsEligible r threshold key_hash x' =
        ap (int_lt threshold) (sym (connections_of-IsSame r x x' s)) ∙ v.eligible in
      subst (λ m. m ≤ score_of key_hash y) (sym (score_of-IsSame key_hash x x' s))
        (All-get_elem? _ ys k v'.highest e eligible)

-- Two frontends with the same balance factor and cookie name that know the same backends, in any
-- order and with any loads, send a client to the same one if they count the same connections, from 0
-- to `bound`, the factor scales these counts up to an `int` that leaves room for the slack, and no
-- two backends have the same score for the client.
pub sticky_backend-IsSame :
    (P : Platform) (coefficient : P.Float) (cookie_name : Str) (r : Reactor) (request : Request)
    (infos infos' : List (BackendInfo P.Float)) (bound : ℕ)
    → 0 < length infos
    → 0 < length infos'
    → bound < 2147483647
    → CountsWithin r bound infos
    → CountsWithin r bound infos'
    → ScalesUp P (factor_of P coefficient) bound
    → Within infos infos'
    → Within infos' infos
    → DistinctScores (fnv1a (extract_key cookie_name request) fnv_offset) infos
    → (x : BackendInfo P.Float) × (y : BackendInfo P.Float) × (get_elem? infos
          (sticky_backend P coefficient cookie_name r request infos)
        ≡ some x)
      × (get_elem? infos' (sticky_backend P coefficient cookie_name r request infos') ≡ some y)
      × IsSame x y
sticky_backend-IsSame P coefficient cookie_name r request infos infos' bound n n' h c c' scales w w'
      distinct =
    let key_hash = fnv1a (extract_key cookie_name request) fnv_offset in
    let (x, v) =
      sticky_backend-IsWinner P coefficient cookie_name r request infos bound n h c scales in
    let (y, v') =
      sticky_backend-IsWinner P coefficient cookie_name r request infos' bound n' h c' scales in
    let same =
      int_antisym (min_connections r int_max infos') (min_connections r int_max infos)
        (min_connections-Within r infos infos' bound n h c w)
        (min_connections-Within r infos' infos bound n' h c' w') in
    let u : IsWinner r (threshold_of P coefficient (min_connections r int_max infos)) key_hash
        infos' (sticky_backend P coefficient cookie_name r request infos') y =
      subst
        (λ m.
          IsWinner r (threshold_of P coefficient m) key_hash infos'
            (sticky_backend P coefficient cookie_name r request infos') y)
        same v' in
    let equal : score_of key_hash x ≡ score_of key_hash y = omega (
      arith,
      score-le r _ key_hash infos infos' _ _ x y w v u,
      score-le r _ key_hash infos' infos _ _ y x w' u v,
    ) in
    let (y', i, s) = w' y (_, u.found) in
    let t = distinct x y' (_, v.found) i (equal ∙ score_of-IsSame key_hash y y' s) in
    (x, y, v.found, v'.found, (t.0 ∙ sym s.0, t.1 ∙ sym s.1))
