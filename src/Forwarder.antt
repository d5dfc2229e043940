-- ===== src/Forwarder.antt =====
-- sputnik/BackendForwarder.h and .cpp with its derived classes. A derived class is a value of
-- `ForwardingMode`, and a virtual method branches on it. Each method runs under the object's own
-- lock, so a call is one step.
pub mod Range
pub mod Candidates
pub mod Least
pub mod Weights
use smartmet_engine_sputnik.Prelude.{
  ℕ, ◌+◌, ◌-◌, Bool, true, false, ◌&&◌, List, [], ◌∷◌, ◌++◌, map, length, is_empty, if◌then◌else◌,
  leb, get_elem?, Option, none, some, ℤ, pos, negsuc, int_lt, int_eq, int_min,
}
use mathlib.Core.List.{foldl}
use smartmet_engine_sputnik.Text.{Str, str_eq}
use smartmet_engine_sputnik.Platform.{Platform}
use smartmet_engine_sputnik.Spine.{Reactor, Request}
use smartmet_engine_sputnik.Outcome.{Result, ok, err, no_backends, out_of_range}
use smartmet_engine_sputnik.Backend.{BackendInfo}
use smartmet_engine_sputnik.Sticky.{connections_of, sticky_backend}

pub data ForwardingMode : Type 0 where
  random inverse_load inverse_connections least_connections double_random : ForwardingMode
  exponential_connections sticky : ForwardingMode

pub record Forwarder (P : Platform) : Type 0 where
  pub mode : ForwardingMode
  pub coefficient : P.Float
  pub cookie_name : Str
  pub infos : List (BackendInfo P.Float)
  -- the weights of `itsDistribution`; none for the one that is default constructed
  pub distribution : List P.Float
  pub generator : P.Generator

-- Is it the backend on this host and port?
abbrev pub is_backend : {F : Type 0} → Str → ℤ → BackendInfo F → Bool
is_backend host port info = str_eq info.host_name host && int_eq info.port port

-- The loop of `removeBackend`: only the first match goes.
unfoldable pub erase_backend : {F : Type 0} → Str → ℤ → List (BackendInfo F) → List (BackendInfo F)
erase_backend host port [] = []
erase_backend host port (info ∷ infos) =
    if is_backend host port info then infos else info ∷ erase_backend host port infos

-- The first loop of LeastConnectionsForwarder: `least` is below 0 until a count has been seen.
unfoldable pub least_count : {F : Type 0} → Reactor → ℤ → List (BackendInfo F) → ℤ
least_count r least [] = least
least_count r least (info ∷ infos) =
    least_count r
      (if int_lt least (pos 0)
        then connections_of r info
        else int_min least (connections_of r info))
      infos

module _ (P : Platform) where
  open P use {Float, zero_f, one_f, of_int, add, mul, div, neg, lt, exp}

  -- `std::accumulate(probVec, 0.0F)`, and the division of each weight by the sum
  unfoldable pub sum_of : List Float → Float
  sum_of ws = foldl add zero_f ws

  unfoldable pub normalise : List Float → List Float
  normalise ws = map (λ w. div w (sum_of ws)) ws

  unfoldable pub inverse_load_weight : Float → BackendInfo Float → Float
  inverse_load_weight a info =
      div one_f (add one_f (mul a (if lt one_f info.load then info.load else one_f)))

  unfoldable pub inverse_connections_weight : Reactor → Float → BackendInfo Float → Float
  inverse_connections_weight r a info =
      div one_f (add one_f (mul a (of_int (connections_of r info))))

  unfoldable pub exponential_weight : Reactor → Float → BackendInfo Float → Float
  exponential_weight r a info = exp (mul (neg a) (of_int (connections_of r info)))

  unfoldable pub least_weight : Reactor → ℤ → BackendInfo Float → Float
  least_weight r least info = if int_eq (connections_of r info) least then one_f else zero_f

  unfoldable pub least_weights : Reactor → List (BackendInfo Float) → List Float
  unfolding least_weight least_count
  least_weights r infos =
      let ws = map (least_weight r (least_count r (negsuc 0) infos)) infos in
      if lt zero_f (sum_of ws) then normalise ws else ws

  -- The distribution that `redistribute` leaves; the base class leaves the old one.
  unfoldable pub redistributed :
      ForwardingMode → Reactor → Float → List (BackendInfo Float) → List Float → List Float
  redistributed inverse_load r a infos old = normalise (map (inverse_load_weight a) infos)
  redistributed inverse_connections r a infos old =
      normalise (map (inverse_connections_weight r a) infos)
  redistributed exponential_connections r a infos old =
      normalise (map (exponential_weight r a) infos)
  redistributed least_connections r a infos old = least_weights r infos
  redistributed random r a infos old = old
  redistributed double_random r a infos old = old
  redistributed sticky r a infos old = old

  unfoldable pub redistribute : Reactor → Forwarder P → Forwarder P
  redistribute r f = record f {
    distribution = redistributed f.mode r f.coefficient f.infos f.distribution;
  }

  -- Does the class override `rebalance`? Those that do call `redistribute`.
  unfoldable pub rebalances : ForwardingMode → Bool
  rebalances inverse_connections = true
  rebalances exponential_connections = true
  rebalances least_connections = true
  rebalances inverse_load = false
  rebalances random = false
  rebalances double_random = false
  rebalances sticky = false

  unfoldable pub rebalance : Reactor → Forwarder P → Forwarder P
  rebalance r f = if rebalances f.mode then redistribute r f else f

  unfoldable pub set_backends : Reactor → List (BackendInfo Float) → Forwarder P → Forwarder P
  unfolding redistribute
  set_backends r backends f = redistribute r (record f { infos = backends })

  unfoldable pub add_backend : Reactor → Str → ℤ → Float → Forwarder P → Forwarder P
  unfolding redistribute
  add_backend r host port load f = redistribute r (record f {
    infos =
        f.infos ++ record { host_name = host; port = port; load = load; throttle_counter = 0 } ∷ [];
  })

  unfoldable pub remove_backend : Reactor → Str → ℤ → Forwarder P → Forwarder P
  unfolding redistribute
  remove_backend r host port f =
      redistribute r (record f { infos = erase_backend host port f.infos })

  -- `BackendForwarder::getBackend`
  unfoldable pub base_backend : Reactor → Forwarder P → Result (ℕ × Forwarder P)
  unfolding rebalance
  base_backend r f =
      let f' = rebalance r f in
      let draw = P.discrete f'.distribution f'.generator in
      ok (draw.0, record f' { generator = draw.1 })

  -- `RandomForwarder::getBackend`
  unfoldable pub random_backend : Forwarder P → Result (ℕ × Forwarder P)
  random_backend f =
      let draw = P.uniform (length f.infos - 1) f.generator in
      if is_empty f.infos then err no_backends else ok (draw.0, record f { generator = draw.1 })

  -- The choice between two candidates, `itsBackendInfos[num1]` and `itsBackendInfos[num2]`; a
  -- candidate out of range would be undefined behaviour, and is `none`.
  unfoldable pub fewer_connections : Reactor → List (BackendInfo Float) → ℕ → ℕ → Option ℕ
  fewer_connections r infos num1 num2 = elim (get_elem? infos num1) [
    | none ↦ none
    | some info1 ↦ elim (get_elem? infos num2) [
      | none ↦ none
      | some info2 ↦
          if int_lt (connections_of r info2) (connections_of r info1) then some num2 else some num1
    ]
  ]

  -- `DoubleRandomForwarder::getBackend`
  unfoldable pub double_random_backend : Reactor → Forwarder P → Result (ℕ × Forwarder P)
  unfolding fewer_connections
  double_random_backend r f =
      let draw1 = P.uniform (length f.infos - 1) f.generator in
      let draw2 = P.uniform (length f.infos - 1) draw1.1 in
      if is_empty f.infos
      then err no_backends
      else elim (fewer_connections r f.infos draw1.0 draw2.0) [
        | none ↦ err out_of_range
        | some i ↦ ok (i, record f { generator = draw2.1 })
      ]

  -- `StickyForwarder::getBackend`
  unfoldable pub sticky_get_backend : Reactor → Request → Forwarder P → Result (ℕ × Forwarder P)
  sticky_get_backend r request f =
      if is_empty f.infos
      then err no_backends
      else ok (sticky_backend P f.coefficient f.cookie_name r request f.infos, f)

  -- The virtual call of `getBackend`, by the class.
  unfoldable pub get_backend_as :
      ForwardingMode → Reactor → Request → Forwarder P → Result (ℕ × Forwarder P)
  get_backend_as random r request f = random_backend f
  get_backend_as double_random r request f = double_random_backend r f
  get_backend_as sticky r request f = sticky_get_backend r request f
  get_backend_as inverse_load r request f = base_backend r f
  get_backend_as inverse_connections r request f = base_backend r f
  get_backend_as least_connections r request f = base_backend r f
  get_backend_as exponential_connections r request f = base_backend r f

  unfoldable pub get_backend : Reactor → Request → Forwarder P → Result (ℕ × Forwarder P)
  unfolding get_backend_as base_backend random_backend double_random_backend sticky_get_backend
  get_backend r request f = get_backend_as f.mode r request f
