-- ===== src/PrefixMap/Lookup.antt =====
-- Which prefix a URI is translated to.
use smartmet_engine_sputnik.Prelude.{◌≡◌, refl, true, false, [], ◌∷◌, Bool-cases, inl, inr, arith}
use smartmet_engine_sputnik.Text.{Str, str_lt, starts_with}
use smartmet_engine_sputnik.Text.Order.{
  str_eq_iff, str_lt_trans, str_lt_irrefl, starts_with_refl, starts_with_trans, starts_with_nested,
}
use smartmet_engine_sputnik.OrderedMap.{has_key}
use smartmet_engine_sputnik.OrderedMap.Laws.{Above, IsSorted}
use smartmet_engine_sputnik.PrefixMap.{UriPrefixMap, translate}

Above-has_key : (j k : Str) (m : UriPrefixMap) → Above j m → has_key k m ≡ true → str_lt j k ≡ true
unfolding has_key
Above-has_key j k [] a e = cc
Above-has_key j k ((i, ids) ∷ m) a e = ground (arith, str_eq_iff i k, Above-has_key j k m a.1)

lt-not-gt : (j k : Str) → str_lt j k ≡ true → str_lt k j ≡ false
lt-not-gt j k h = elim (Bool-cases (str_lt k j)) [
  | inl g ↦ cc (str_lt_trans j k j h g, str_lt_irrefl j)
  | inr l ↦ l
]

-- A URI begins with its translation.
pub translate-starts_with :
    (m : UriPrefixMap) (uri : Str) → starts_with uri (translate m uri) ≡ true
unfolding translate
translate-starts_with [] uri = starts_with_refl uri
translate-starts_with ((j, ids) ∷ m) uri = ground (arith, translate-starts_with m uri)

-- A URI that some key of the map starts is translated to a key.
translate-has_key :
    (m : UriPrefixMap) (uri key : Str)
    → has_key key m ≡ true
    → starts_with uri key ≡ true
    → has_key (translate m uri) m ≡ true
unfolding translate has_key
translate-has_key [] uri key e h = cc
translate-has_key ((j, ids) ∷ m) uri key e h = ground (
  arith,
  str_eq_iff j key,
  str_eq_iff j j,
  str_eq_iff j (translate m uri),
  translate-has_key m uri key,
)

translate-nested :
    (m : UriPrefixMap) (uri key : Str)
    → IsSorted m
    → has_key key m ≡ true
    → starts_with uri key ≡ true
    → starts_with key (translate m uri) ≡ true
unfolding translate has_key
translate-nested [] uri key s e h = cc
translate-nested ((j, ids) ∷ m) uri key s e h = ground (
  arith,
  str_eq_iff j key,
  starts_with_refl j,
  starts_with_nested uri j key,
  lt-not-gt j key,
  Above-has_key j key m s.0,
  translate-nested m uri key s.1,
)

-- In a map in key order, a URI that begins with some key of the map is translated to the shortest
-- such key: to a key, with which the URI begins, and with which every key begins that the URI
-- begins with.
pub translate-shortest :
    (m : UriPrefixMap) (uri key : Str)
    → IsSorted m
    → has_key key m ≡ true
    → starts_with uri key ≡ true
    → (has_key (translate m uri) m ≡ true)
      × (starts_with uri (translate m uri) ≡ true)
      × (starts_with key (translate m uri) ≡ true)
translate-shortest m uri key s e h =
    (translate-has_key m uri key e h, translate-starts_with m uri, translate-nested m uri key s e h)

-- Translating a URI again changes nothing.
pub translate-translate :
    (m : UriPrefixMap) (uri : Str) → translate m (translate m uri) ≡ translate m uri
unfolding translate
translate-translate [] uri = refl
translate-translate ((j, ids) ∷ m) uri = elim (Bool-cases (starts_with uri j)) [
  | inl hit ↦ ground (arith, starts_with_refl j)
  | inr miss ↦ ground (
    arith,
    starts_with_trans uri (translate m uri) j (translate-starts_with m uri),
    translate-translate m uri,
  )
]
