-- ===== src/PrefixMap/Updates.antt =====
-- Adding and removing the backends of a prefix.
use smartmet_engine_sputnik.Prelude.{
  ◌≡◌, refl, true, false, [], ◌∷◌, List, none, some, is_empty, inl, inr, Option-cases, Bool-cases,
  arith,
}
use smartmet_engine_sputnik.Text.{Str}
use smartmet_engine_sputnik.Text.Order.{str_eq_iff}
use smartmet_engine_sputnik.OrderedMap.{
  OrderedMap, find, assign, erase, set_insert, set_erase, set_contains,
}
use smartmet_engine_sputnik.OrderedMap.Laws.{
  Above-trans, AllValues, AllValues-assign, AllValues-erase, AllValues-find, IsSorted,
  assign-IsSorted, erase-IsSorted, find-assign, find-Above,
}
use smartmet_engine_sputnik.OrderedMap.Sets.{
  IsRising, set_insert-IsRising, set_erase-IsRising, set_contains-set_insert,
}
use smartmet_engine_sputnik.Backend.{BackendService}
use smartmet_engine_sputnik.PrefixMap.{
  UriPrefixMap, backend_service_id, ids_of, add_prefix, remove_id, remove_backend,
}

-- No prefix has the empty set of backends.
abbrev pub NoneEmpty : UriPrefixMap → Type 0
NoneEmpty [] = Unit
NoneEmpty ((k, ids) ∷ m) = (is_empty ids ≡ false) × NoneEmpty m

pub record IsValid (m : UriPrefixMap) : Type 0 where
  pub sorted : IsSorted m
  pub filled : NoneEmpty m
  pub rising : AllValues IsRising m

is_empty-set_insert : (id : Str) (ids : List Str) → is_empty (set_insert id ids) ≡ false
unfolding set_insert
is_empty-set_insert id [] = refl
is_empty-set_insert id (j ∷ ids) = ground arith

assign-NoneEmpty :
    (k : Str) (ids : List Str) (m : UriPrefixMap)
    → is_empty ids ≡ false
    → NoneEmpty m
    → NoneEmpty (assign k ids m)
unfolding assign
assign-NoneEmpty k ids [] h f = (h, tt)
assign-NoneEmpty k ids ((j, w) ∷ m) h f = ground (arith, assign-NoneEmpty k ids m h f.1)

erase-NoneEmpty : (k : Str) (m : UriPrefixMap) → NoneEmpty m → NoneEmpty (erase k m)
unfolding erase
erase-NoneEmpty k [] f = tt
erase-NoneEmpty k ((j, w) ∷ m) f = ground (arith, erase-NoneEmpty k m f.1)

pub ids_of-IsRising :
    (prefix : Str) (m : UriPrefixMap) → AllValues IsRising m → IsRising (ids_of prefix m)
unfolding ids_of
ids_of-IsRising prefix m v = elim (Option-cases (find prefix m)) [
  | inl e ↦ rw (e, ids_of) tt
  | inr (ids, e) ↦ rw (e, ids_of) (AllValues-find IsRising prefix m v e)
]

pub add_prefix-IsValid :
    {F : Type 0} (prefix : Str) (s : BackendService F) (m : UriPrefixMap)
    → IsValid m
    → IsValid (add_prefix prefix s m)
unfolding add_prefix
add_prefix-IsValid prefix s m v = record {
  sorted = assign-IsSorted prefix _ m v.sorted;
  filled = assign-NoneEmpty prefix _ m (is_empty-set_insert _ (ids_of prefix m)) v.filled;
  rising =
      AllValues-assign IsRising prefix _ m
        (set_insert-IsRising (backend_service_id s) _ (ids_of-IsRising prefix m v.rising)) v.rising;
}

erase_id-IsValid :
    (prefix id : Str) (ids : List Str) (m : UriPrefixMap)
    → IsValid m
    → IsRising ids
    → is_empty (set_erase id ids) ≡ false
    → IsValid (assign prefix (set_erase id ids) m)
erase_id-IsValid prefix id ids m v r left = record {
  sorted = assign-IsSorted prefix (set_erase id ids) m v.sorted;
  filled = assign-NoneEmpty prefix (set_erase id ids) m left v.filled;
  rising =
      AllValues-assign IsRising prefix (set_erase id ids) m (set_erase-IsRising id ids r) v.rising;
}

remove_id-IsValid :
    (prefix id : Str) (ids : List Str) (m : UriPrefixMap)
    → IsValid m
    → IsRising ids
    → IsValid (remove_id prefix id ids m)
unfolding remove_id
remove_id-IsValid prefix id ids m v r = elim (Bool-cases (set_contains id ids)) [
  | inl e ↦ elim (Bool-cases (is_empty (set_erase id ids))) [
    | inl none_left ↦
        rw (e, none_left)
          (record {
            sorted = erase-IsSorted prefix m v.sorted;
            filled = erase-NoneEmpty prefix m v.filled;
            rising = AllValues-erase IsRising prefix m v.rising;
          })
    | inr left ↦ rw (e, left) (erase_id-IsValid prefix id ids m v r left)
  ]
  | inr n ↦ rw n v
]

pub remove_backend-IsValid :
    {F : Type 0} (prefix : Str) (s : BackendService F) (m : UriPrefixMap)
    → IsValid m
    → IsValid (remove_backend prefix s m)
unfolding remove_backend
remove_backend-IsValid prefix s m v = elim (Option-cases (find prefix m)) [
  | inl e ↦ rw (e, remove_backend) v
  | inr (ids, e) ↦
      rw (e, remove_backend)
        (remove_id-IsValid prefix (backend_service_id s) ids m v
          (AllValues-find IsRising prefix m v.rising e))
]

set_erase-set_insert :
    (id : Str) (ids : List Str)
    → set_contains id ids ≡ false
    → set_erase id (set_insert id ids) ≡ ids
unfolding set_erase set_insert set_contains
set_erase-set_insert id [] h = ground (arith, str_eq_iff id id)
set_erase-set_insert id (j ∷ ids) h = ground (arith, str_eq_iff id id, set_erase-set_insert id ids)

module _ {V : Type 0} where
  erase-assign : (k : Str) (v : V) (m : OrderedMap V) → find k m ≡ none → erase k (assign k v m) ≡ m
  unfolding find erase assign
  erase-assign k v [] h = ground (arith, str_eq_iff k k)
  erase-assign k v ((j, w) ∷ m) h = ground (arith, str_eq_iff k k, erase-assign k v m)

  assign-assign :
      (k : Str) (v w : V) (m : OrderedMap V)
      → IsSorted m
      → find k m ≡ some w
      → assign k w (assign k v m) ≡ m
  unfolding find assign
  assign-assign k v w [] s h = absurd (cc)
  assign-assign k v w ((j, u) ∷ m) s h = ground (
    arith,
    str_eq_iff k k,
    str_eq_iff j k,
    find-Above k m,
    Above-trans k j m,
    assign-assign k v w m s.1,
  )

ids_of-find :
    (prefix : Str) (m : UriPrefixMap) {ids : List Str}
    → find prefix m ≡ some ids
    → ids_of prefix m ≡ ids
unfolding ids_of
ids_of-find prefix m e = rw (e, ids_of)

find-IsFilled :
    (prefix : Str) (m : UriPrefixMap) {ids : List Str}
    → NoneEmpty m
    → find prefix m ≡ some ids
    → is_empty ids ≡ false
unfolding find
find-IsFilled prefix [] f e = absurd (cc)
find-IsFilled prefix ((j, w) ∷ m) {ids} f e = ground (arith, find-IsFilled prefix m {ids = ids} f.1)

-- In a valid map, adding a backend that the prefix does not have yet and removing it again gives
-- the map back: a prefix that was not there is gone, one that was there keeps its other backends.
pub remove_backend-add_prefix :
    {F : Type 0} (prefix : Str) (s : BackendService F) (m : UriPrefixMap)
    → IsValid m
    → set_contains (backend_service_id s) (ids_of prefix m) ≡ false
    → remove_backend prefix s (add_prefix prefix s m) ≡ m
unfolding remove_backend add_prefix ids_of
remove_backend-add_prefix prefix s m v new =
    let id = backend_service_id s in
    let ids = ids_of prefix m in
    let here : find prefix (assign prefix (set_insert id ids) m) ≡ some (set_insert id ids) =
      ground (arith, find-assign prefix prefix (set_insert id ids) m, str_eq_iff prefix prefix) in
    let back = set_erase-set_insert id ids new in
    let there : set_contains id (set_insert id ids) ≡ true =
      ground (arith, set_contains-set_insert id id ids, str_eq_iff id id) in
    elim (Option-cases (find prefix m)) [
      | inl e ↦ ground (arith, here, back, there, erase-assign prefix (set_insert id ids) m e)
      | inr (old, e) ↦ ground (
        arith,
        here,
        back,
        there,
        assign-assign prefix (set_insert id ids) old m v.sorted e,
        find-IsFilled prefix m {ids = old} v.filled e,
      )
    ]
