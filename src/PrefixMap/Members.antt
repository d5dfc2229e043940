-- ===== src/PrefixMap/Members.antt =====
-- Which backends a prefix has, after one has been removed.
use smartmet_engine_sputnik.Prelude.{
  ◌≡◌, refl, inl, inr, true, false, not, ◌&&◌, List, [], ◌∷◌, Option, none, some, is_empty,
  Option-cases, arith,
}
use smartmet_engine_sputnik.Text.{Str, str_eq}
use smartmet_engine_sputnik.Text.Order.{str_eq_iff}
use smartmet_engine_sputnik.OrderedMap.{find, set_erase, set_contains}
use smartmet_engine_sputnik.OrderedMap.Laws.{AllValues-find, find-assign, find-erase}
use smartmet_engine_sputnik.OrderedMap.Sets.{IsRising, set_contains-set_erase}
use smartmet_engine_sputnik.Backend.{BackendService}
use smartmet_engine_sputnik.PrefixMap.{
  UriPrefixMap, backend_service_id, ids_of, remove_id, remove_backend,
}
use smartmet_engine_sputnik.PrefixMap.Updates.{IsValid}

abbrev ids_or_none : Option (List Str) → List Str
ids_or_none none = []
ids_or_none (some ids) = ids

ids_of-find : (prefix : Str) (m : UriPrefixMap) → ids_of prefix m ≡ ids_or_none (find prefix m)
unfolding ids_of
ids_of-find prefix m = elim (Option-cases (find prefix m)) [
  | inl e ↦ rw (e, ids_of) refl
  | inr (ids, e) ↦ rw (e, ids_of) refl
]

is_empty-contains : (id : Str) (ids : List Str) → is_empty ids ≡ true → set_contains id ids ≡ false
unfolding set_contains
is_empty-contains id [] h = refl
is_empty-contains id (j ∷ ids) h = absurd (cc)

contains-remove_id :
    (prefix id : Str) (ids : List Str) (m : UriPrefixMap) (p j : Str)
    → IsValid m
    → IsRising ids
    → find prefix m ≡ some ids
    → set_contains j (ids_or_none (find p (remove_id prefix id ids m)))
      ≡ (set_contains j (ids_or_none (find p m)) && not (str_eq prefix p && str_eq id j))
unfolding remove_id
contains-remove_id prefix id ids m p j v r e = ground (
  arith,
  e,
  str_eq_iff prefix p,
  str_eq_iff id j,
  find-assign prefix p (set_erase id ids) m,
  find-erase prefix p m v.sorted,
  set_contains-set_erase id j ids r,
  is_empty-contains j (set_erase id ids),
)

-- In a valid map, `removeBackend` takes the one backend from the one prefix, and no other.
pub contains-remove_backend :
    {F : Type 0} (prefix : Str) (s : BackendService F) (m : UriPrefixMap) (p j : Str)
    → IsValid m
    → set_contains j (ids_of p (remove_backend prefix s m))
      ≡ (set_contains j (ids_of p m) && not (str_eq prefix p && str_eq (backend_service_id s) j))
unfolding remove_backend
contains-remove_backend prefix s m p j v = elim (Option-cases (find prefix m)) [
  | inl e ↦
      rw (e, remove_backend)
        (ground (arith, e, ids_of-find p m, str_eq_iff prefix p, is_empty-contains j [] refl))
  | inr (ids, e) ↦
      rw (e, remove_backend)
        (ground (
          arith,
          ids_of-find p m,
          ids_of-find p (remove_id prefix (backend_service_id s) ids m),
          contains-remove_id prefix (backend_service_id s) ids m p j v
              (AllValues-find IsRising prefix m v.rising e) e,
        ))
]
