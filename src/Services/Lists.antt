-- ===== src/Services/Lists.antt =====
-- sputnik/Services.h and Services.cpp: the list of a URI with its forwarder, and the loops over the
-- lists.
use smartmet_engine_sputnik.Prelude.{
  ℕ, Bool, true, ◌&&◌, ◌||◌, List, [], ◌∷◌, ◌++◌, if◌then◌else◌, is_empty, ℤ, int_eq,
}
use smartmet_engine_sputnik.Text.{Str, str_eq}
use smartmet_engine_sputnik.OrderedMap.{OrderedMap}
use smartmet_engine_sputnik.Platform.{Platform}
use smartmet_engine_sputnik.Spine.{Reactor}
use smartmet_engine_sputnik.Backend.{BackendService, BackendInfoRequest}
use smartmet_engine_sputnik.PrefixMap.{UriPrefixMap, translate, add_prefix}
use smartmet_engine_sputnik.PrefixMap
use smartmet_engine_sputnik.Forwarder.{
  ForwardingMode, random, inverse_load, inverse_connections, least_connections, double_random,
  exponential_connections, sticky, Forwarder, get_backend,
}
use smartmet_engine_sputnik.Forwarder

-- `std::pair<BackendServiceListPtr, BackendForwarderPtr>`
pub record Entry (P : Platform) : Type 0 where
  pub services : List (BackendService P.Float)
  pub forwarder : Forwarder P

-- The test of `Services::removeBackend` on one service.
abbrev pub is_removed : {F : Type 0} → Str → ℤ → Str → BackendService F → Bool
is_removed host port uri s =
    (str_eq s.backend.name host && int_eq s.backend.port port) && (is_empty uri || str_eq uri s.uri)

-- The test of `Services::latestSequence` on one service.
abbrev pub is_latest : {F : Type 0} → ℤ → BackendService F → Bool
is_latest n s = int_eq s.sequence_number n

abbrev pub is_latest_request : {F : Type 0} → ℤ → BackendInfoRequest F → Bool
is_latest_request n q = int_eq q.sequence_number n

module _ (P : Platform) where
  open P use {Float, zero_f, two_f, seeded}

  -- The loops of `removeBackend` and `latestSequence` over one list: a service that fails the test
  -- is erased, and its backend removed from the forwarder.
  unfoldable pub sweep :
      (BackendService Float → Bool) → Reactor → List (BackendService Float) → Forwarder P → Entry P
  sweep stays r [] f = record { services = []; forwarder = f }
  sweep stays r (s ∷ ss) f =
      let rest =
        sweep stays r ss
          (if stays s then f else Forwarder.remove_backend P r s.backend.name s.backend.port f) in
      record {
        services = if stays s then s ∷ rest.services else rest.services;
        forwarder = rest.forwarder;
      }

  unfoldable pub sweep_entry : (BackendService Float → Bool) → Reactor → Entry P → Entry P
  unfolding sweep
  sweep_entry stays r e = sweep stays r e.services e.forwarder

  -- `itsPrefixMap.removeBackend(theURI, *it)` stands before the test, so it is called for every
  -- service of every list.
  unfoldable pub visit_services : Str → List (BackendService Float) → UriPrefixMap → UriPrefixMap
  visit_services uri [] m = m
  visit_services uri (s ∷ ss) m = visit_services uri ss (PrefixMap.remove_backend uri s m)

  unfoldable pub visit_entries : Str → OrderedMap (Entry P) → UriPrefixMap → UriPrefixMap
  unfolding visit_services
  visit_entries uri [] m = m
  visit_entries uri ((k, e) ∷ es) m = visit_entries uri es (visit_services uri e.services m)

  -- Is every list empty?
  unfoldable pub none_left : OrderedMap (Entry P) → Bool
  none_left [] = true
  none_left ((k, e) ∷ es) = is_empty e.services && none_left es

  -- The `switch` of `addService`, with the constructors of the classes.
  unfoldable pub coefficient_for : ForwardingMode → Float → Float
  coefficient_for random a = zero_f
  coefficient_for double_random a = zero_f
  coefficient_for least_connections a = zero_f
  coefficient_for inverse_load a = a
  coefficient_for inverse_connections a = a
  coefficient_for exponential_connections a = a
  coefficient_for sticky a = a

  -- `now` is the value of `time(nullptr)`, which seeds the generator.
  unfoldable pub new_forwarder : ForwardingMode → Float → Str → ℕ → Forwarder P
  unfolding coefficient_for
  new_forwarder mode a cookie now = record {
    mode = mode;
    coefficient = coefficient_for mode a;
    cookie_name = cookie;
    infos = [];
    distribution = [];
    generator = seeded now;
  }

  -- The entry of a URI, old or new, with one more service.
  unfoldable pub extend_entry : Reactor → BackendService Float → Float → Entry P → Entry P
  extend_entry r s load e = record {
    services = e.services ++ s ∷ [];
    forwarder = Forwarder.add_backend P r s.backend.name s.backend.port load e.forwarder;
  }
