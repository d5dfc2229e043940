-- ===== src/OrderedMap.antt =====
-- `std::map<std::string, V>` as the list of its entries in key order, and
-- `std::set<std::string>` as the list of its members in order. A search visits the entries from
-- the first on, where the tree descends; both find the one entry of the key.
pub mod Laws
pub mod Keys
pub mod Sets
use smartmet_engine_sputnik.Prelude.{
  Bool, true, false, List, [], ◌∷◌, Option, none, some, if◌then◌else◌,
}
use smartmet_engine_sputnik.Text.{Str, str_eq, str_lt}

abbrev pub OrderedMap {ℓ} : Type ℓ → Type ℓ
OrderedMap V = List (Str × V)

module _ {ℓ} {V : Type ℓ} where
  unfoldable pub find : Str → OrderedMap V → Option V
  find k [] = none
  find k ((j, v) ∷ m) = if str_eq j k then some v else find k m

  -- `m.find(k) != m.end()`
  unfoldable pub has_key : Str → OrderedMap V → Bool
  has_key k [] = false
  has_key k ((j, v) ∷ m) = if str_eq j k then true else has_key k m

  -- `m[k] = v`: a new key goes to its place in the order.
  unfoldable pub assign : Str → V → OrderedMap V → OrderedMap V
  assign k v [] = (k, v) ∷ []
  assign k v ((j, w) ∷ m) =
      if str_eq j k
      then (k, v) ∷ m
      else if str_lt k j
      then (k, v) ∷ (j, w) ∷ m
      else (j, w) ∷ assign k v m

  unfoldable pub erase : Str → OrderedMap V → OrderedMap V
  erase k [] = []
  erase k ((j, w) ∷ m) = if str_eq j k then m else (j, w) ∷ erase k m

  -- A loop over the values that changes each in place.
  unfoldable pub map_values : (V → V) → OrderedMap V → OrderedMap V
  map_values f [] = []
  map_values f ((j, w) ∷ m) = (j, f w) ∷ map_values f m

-- `insert` of a set: a member stays where it is.
unfoldable pub set_insert : Str → List Str → List Str
set_insert k [] = k ∷ []
set_insert k (j ∷ s) =
    if str_eq j k then j ∷ s else if str_lt k j then k ∷ j ∷ s else j ∷ set_insert k s

unfoldable pub set_erase : Str → List Str → List Str
set_erase k [] = []
set_erase k (j ∷ s) = if str_eq j k then s else j ∷ set_erase k s

unfoldable pub set_contains : Str → List Str → Bool
set_contains k [] = false
set_contains k (j ∷ s) = if str_eq j k then true else set_contains k s
