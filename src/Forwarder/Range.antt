-- ===== src/Forwarder/Range.antt =====
-- The index that `getBackend` returns, for every class.
use smartmet_engine_sputnik.Prelude.{
  ℕ, ◌-◌, ◌<◌, ◌≡◌, refl, ap, Bool, true, false, List, map, length, length-map, Bool-cases, inl,
  inr, ℤ, negsuc, arith,
}
use smartmet_engine_sputnik.Text.{Str}
use smartmet_engine_sputnik.Platform.{Platform, IsRandom}
use smartmet_engine_sputnik.Spine.{Reactor, Request}
use smartmet_engine_sputnik.Outcome.{Returns}
use smartmet_engine_sputnik.Backend.{BackendInfo}
use smartmet_engine_sputnik.Sticky.{
  sticky_backend, threshold_of, min_connections, int_max, fnv1a, extract_key, fnv_offset,
}
use smartmet_engine_sputnik.Sticky.Winner.{select_loop-lt}
use smartmet_engine_sputnik.Forwarder.Candidates.{fewer_connections-IsLighter}
use smartmet_engine_sputnik.Forwarder.{
  ForwardingMode, random, inverse_load, inverse_connections, least_connections, double_random,
  exponential_connections, sticky, Forwarder, normalise, least_weights, least_weight, least_count,
  redistributed, redistribute, rebalance, rebalances, set_backends, add_backend, remove_backend,
  base_backend, random_backend, double_random_backend, get_backend, get_backend_as,
  sticky_get_backend, inverse_load_weight, inverse_connections_weight, exponential_weight,
}

-- The classes that draw from the distribution.
abbrev pub is_weighted : ForwardingMode → Bool
is_weighted inverse_load = true
is_weighted inverse_connections = true
is_weighted least_connections = true
is_weighted exponential_connections = true
is_weighted random = false
is_weighted double_random = false
is_weighted sticky = false

module _ (P : Platform) where
  -- A class that draws from the distribution has one weight for each backend.
  abbrev pub IsBalanced : Forwarder P → Type 0
  IsBalanced f = is_weighted f.mode ≡ true → length f.distribution ≡ length f.infos

  length-normalise : (ws : List P.Float) → length (normalise P ws) ≡ length ws
  unfolding normalise
  length-normalise ws = length-map ws _

  length-least_weights :
      (r : Reactor) (infos : List (BackendInfo P.Float))
      → length (least_weights P r infos) ≡ length infos
  unfolding least_weights
  length-least_weights r infos =
      let ws = map (least_weight P r (least_count r (negsuc 0) infos)) infos in
      ground (
        arith,
        length-normalise ws,
        length-map infos (least_weight P r (least_count r (negsuc 0) infos)),
      )

  length-redistributed :
      (mode : ForwardingMode) (r : Reactor) (a : P.Float) (infos : List (BackendInfo P.Float))
      (old : List P.Float)
      → is_weighted mode ≡ true
      → length (redistributed P mode r a infos old) ≡ length infos
  unfolding redistributed
  length-redistributed inverse_load r a infos old h = omega (
    arith,
    length-normalise (map (inverse_load_weight P a) infos),
    length-map infos (inverse_load_weight P a),
  )
  length-redistributed inverse_connections r a infos old h = omega (
    arith,
    length-normalise (map (inverse_connections_weight P r a) infos),
    length-map infos (inverse_connections_weight P r a),
  )
  length-redistributed exponential_connections r a infos old h = omega (
    arith,
    length-normalise (map (exponential_weight P r a) infos),
    length-map infos (exponential_weight P r a),
  )
  length-redistributed least_connections r a infos old h = length-least_weights r infos
  length-redistributed random r a infos old h = cc
  length-redistributed double_random r a infos old h = cc
  length-redistributed sticky r a infos old h = cc

  pub redistribute-IsBalanced : (r : Reactor) (f : Forwarder P) → IsBalanced (redistribute P r f)
  unfolding redistribute
  redistribute-IsBalanced r f h =
      length-redistributed f.mode r f.coefficient f.infos f.distribution h

  -- After each method that changes the list of backends there is one weight for each backend.
  pub add_backend-IsBalanced :
      (r : Reactor) (host : Str) (port : ℤ) (load : P.Float) (f : Forwarder P)
      → IsBalanced (add_backend P r host port load f)
  unfolding add_backend
  add_backend-IsBalanced r host port load f h =
      length-redistributed f.mode r f.coefficient _ f.distribution h

  pub remove_backend-IsBalanced :
      (r : Reactor) (host : Str) (port : ℤ) (f : Forwarder P)
      → IsBalanced (remove_backend P r host port f)
  unfolding remove_backend
  remove_backend-IsBalanced r host port f h =
      length-redistributed f.mode r f.coefficient _ f.distribution h

  pub set_backends-IsBalanced :
      (r : Reactor) (infos : List (BackendInfo P.Float)) (f : Forwarder P)
      → IsBalanced (set_backends P r infos f)
  unfolding set_backends
  set_backends-IsBalanced r infos f h =
      length-redistributed f.mode r f.coefficient _ f.distribution h

  rebalance-IsBalanced :
      (r : Reactor) (f : Forwarder P) → IsBalanced f → IsBalanced (rebalance P r f)
  unfolding rebalance
  rebalance-IsBalanced r f b = elim (Bool-cases (rebalances P f.mode)) [
    | inl e ↦ rw e (redistribute-IsBalanced r f)
    | inr e ↦ rw e b
  ]

  -- What `getBackend` leaves of the forwarder, and the range of the index.
  pub record InRange (f : Forwarder P) (result : ℕ × Forwarder P) : Type 0 where
    pub within : result.0 < length f.infos
    pub same_infos : result.1.infos ≡ f.infos
    pub same_mode : result.1.mode ≡ f.mode
    pub balanced : IsBalanced result.1

  base_backend-InRange :
      IsRandom P
      → (r : Reactor) (f : Forwarder P) → IsBalanced f
      → is_weighted f.mode ≡ true
      → 0 < length f.infos
      → Returns (base_backend P r f) (InRange f)
  unfolding base_backend
  base_backend-InRange random_laws r f b m n =
      let f' = rebalance P r f in
      let same : (f'.infos ≡ f.infos) × (f'.mode ≡ f.mode) =
        unfold rebalance redistribute in (ground arith, ground arith) in
      let weights : length f'.distribution ≡ length f'.infos =
        rebalance-IsBalanced r f b (ground (arith, same.1)) in
      (
        _,
        refl,
        record {
          within =
              ground
                (arith, same.0, weights, random_laws.discrete_range f'.distribution f'.generator);
          same_infos = same.0;
          same_mode = same.1;
          balanced = λ h. weights;
        },
      )

  random_backend-InRange :
      IsRandom P
      → (f : Forwarder P) → IsBalanced f
      → 0 < length f.infos
      → Returns (random_backend P f) (InRange f)
  unfolding random_backend
  random_backend-InRange random_laws f b n =
      let draw = P.uniform (length f.infos - 1) f.generator in
      (
        (draw.0, record f { generator = draw.1 }),
        ground arith,
        record {
          within = omega (arith, random_laws.uniform_range (length f.infos - 1) f.generator);
          same_infos = refl;
          same_mode = refl;
          balanced = b;
        },
      )

  double_random_backend-InRange :
      IsRandom P
      → (r : Reactor) (f : Forwarder P) → IsBalanced f
      → 0 < length f.infos
      → Returns (double_random_backend P r f) (InRange f)
  unfolding double_random_backend
  double_random_backend-InRange random_laws r f b n =
      let top = length f.infos - 1 in
      let draw1 = P.uniform top f.generator in
      let draw2 = P.uniform top draw1.1 in
      let low : draw1.0 < length f.infos =
        omega (arith, random_laws.uniform_range top f.generator) in
      let low' : draw2.0 < length f.infos = omega (arith, random_laws.uniform_range top draw1.1) in
      let (k, e, lighter) = fewer_connections-IsLighter P r f.infos draw1.0 draw2.0 low low' in
      (
        (k, record f { generator = draw2.1 }),
        ground (arith, e),
        record {
          within = elim lighter.chosen [ inl p ↦ rw p low | inr p ↦ rw p low' ];
          same_infos = refl;
          same_mode = refl;
          balanced = b;
        },
      )

  sticky-InRange :
      (r : Reactor) (request : Request) (f : Forwarder P)
      → IsBalanced f
      → 0 < length f.infos
      → InRange f (sticky_backend P f.coefficient f.cookie_name r request f.infos, f)
  unfolding sticky_backend
  sticky-InRange r request f b n = record {
    within =
        select_loop-lt r (threshold_of P f.coefficient (min_connections r int_max f.infos))
          (fnv1a (extract_key f.cookie_name request) fnv_offset) f.infos n;
    same_infos = refl;
    same_mode = refl;
    balanced = b;
  }

  get_backend_as-InRange :
      IsRandom P
      → (mode : ForwardingMode) (r : Reactor) (request : Request) (f : Forwarder P) → mode ≡ f.mode
      → IsBalanced f
      → 0 < length f.infos
      → Returns (get_backend_as P mode r request f) (InRange f)
  unfolding get_backend_as sticky_get_backend
  get_backend_as-InRange laws random r request f e b n = random_backend-InRange laws f b n
  get_backend_as-InRange laws double_random r request f e b n =
      double_random_backend-InRange laws r f b n
  get_backend_as-InRange laws sticky r request f e b n =
      (_, ground arith, sticky-InRange r request f b n)
  get_backend_as-InRange laws inverse_load r request f e b n =
      base_backend-InRange laws r f b (cc (ap is_weighted e)) n
  get_backend_as-InRange laws inverse_connections r request f e b n =
      base_backend-InRange laws r f b (cc (ap is_weighted e)) n
  get_backend_as-InRange laws least_connections r request f e b n =
      base_backend-InRange laws r f b (cc (ap is_weighted e)) n
  get_backend_as-InRange laws exponential_connections r request f e b n =
      base_backend-InRange laws r f b (cc (ap is_weighted e)) n

  -- If random draws are in the documented ranges: for every class, on a forwarder that has backends
  -- (and, if the class draws from the distribution, one weight for each), `getBackend` returns an
  -- index of the list of backends, and keeps that list, the class and the number of weights.
  pub get_backend-InRange :
      IsRandom P
      → (r : Reactor) (request : Request) (f : Forwarder P) → IsBalanced f
      → 0 < length f.infos
      → Returns (get_backend P r request f) (InRange f)
  unfolding get_backend
  get_backend-InRange laws r request f b n = get_backend_as-InRange laws f.mode r request f refl b n
