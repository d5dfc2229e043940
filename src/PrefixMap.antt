-- ===== src/PrefixMap.antt =====
-- sputnik/URIPrefixMap.h and .cpp: which URI prefixes are served, and by which backends. Each
-- method runs under the map's mutex, so a call is one step.
pub mod Lookup
pub mod Updates
pub mod Members
use smartmet_engine_sputnik.Prelude.{
  [], ◌∷◌, ◌++◌, List, Option, none, some, if◌then◌else◌, is_empty,
}
use smartmet_engine_sputnik.Text.{Str, starts_with, to_string}
use smartmet_engine_sputnik.OrderedMap.{
  OrderedMap, find, assign, erase, set_insert, set_erase, set_contains,
}
use smartmet_engine_sputnik.Backend.{BackendService}

abbrev pub UriPrefixMap : Type 0
UriPrefixMap = OrderedMap (List Str)

unfoldable pub backend_service_id : {F : Type 0} → BackendService F → Str
backend_service_id s =
    s.backend.name ++ (b':' ∷ (to_string s.backend.port ++ (b':' ∷ to_string s.sequence_number)))

-- `prefixMap[prefix]`: a missing entry is made with the empty set.
unfoldable pub ids_of : Str → UriPrefixMap → List Str
ids_of prefix m = elim (find prefix m) [ none ↦ [] | some ids ↦ ids ]

unfoldable pub add_prefix : {F : Type 0} → Str → BackendService F → UriPrefixMap → UriPrefixMap
unfolding ids_of
add_prefix prefix s m = assign prefix (set_insert (backend_service_id s) (ids_of prefix m)) m

-- The branches on a prefix that is known.
unfoldable pub remove_id : Str → Str → List Str → UriPrefixMap → UriPrefixMap
remove_id prefix id ids m =
    if set_contains id ids
    then if is_empty (set_erase id ids) then erase prefix m else assign prefix (set_erase id ids) m
    else m

unfoldable pub remove_backend : {F : Type 0} → Str → BackendService F → UriPrefixMap → UriPrefixMap
unfolding remove_id
remove_backend prefix s m = elim (find prefix m) [
  | none ↦ m
  | some ids ↦ remove_id prefix (backend_service_id s) ids m
]

-- `operator()`
unfoldable pub translate : UriPrefixMap → Str → Str
translate [] uri = uri
translate ((prefix, ids) ∷ m) uri = if starts_with uri prefix then prefix else translate m uri
