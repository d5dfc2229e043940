-- ===== src/Services/Reports/Listing.antt =====
-- The table of backends against the list of backends.
use smartmet_engine_sputnik.Prelude.{
  ◌≡◌, refl, Bool, true, false, not, ◌&&◌, ◌||◌, List, [], ◌∷◌, map, ◌++◌, arith,
}
use smartmet_engine_sputnik.Text.{Str, str_eq, to_string}
use smartmet_engine_sputnik.Text.Order.{str_eq_iff}
use smartmet_engine_sputnik.OrderedMap.{set_insert, set_contains}
use smartmet_engine_sputnik.OrderedMap.Sets.{set_contains-set_insert}
use smartmet_engine_sputnik.Platform.{Platform}
use smartmet_engine_sputnik.Services.{Services}
use smartmet_engine_sputnik.Services.Reports.{
  Row, row_id, first_rows, cells, rows_at, service_uri, get_backend_list, backends,
}

-- The name, the IP and the port of a row, with `|` between them.
abbrev pub id_text : Row → Str
id_text (name, ip, port) = name ++ (b'|' ∷ (ip ++ (b'|' ∷ to_string port)))

row_id-id_text : (x : Row) → row_id x ≡ id_text x
unfolding row_id
row_id-id_text (name, ip, port) = refl

-- Is a row with this text in the list?
abbrev pub has_id : Str → List Row → Bool
has_id id [] = false
has_id id (x ∷ xs) = str_eq (id_text x) id || has_id id xs

-- No text occurs twice.
abbrev pub distinct : List Row → Bool
distinct [] = true
distinct (x ∷ xs) = not (has_id (id_text x) xs) && distinct xs

-- The rows left are those whose id is seen for the first time, those in `listed` counting as seen.
has_id-first_rows :
    (id : Str) (xs : List Row) (listed : List Str)
    → has_id id (first_rows listed xs) ≡ (has_id id xs && not (set_contains id listed))
unfolding first_rows
has_id-first_rows id [] listed = refl
has_id-first_rows id (x ∷ xs) listed = ground (
  arith,
  has_id-first_rows id xs (set_insert (row_id x) listed),
  set_contains-set_insert (row_id x) id listed,
  str_eq_iff (row_id x) id,
  row_id-id_text x,
)

distinct-first_rows : (xs : List Row) (listed : List Str) → distinct (first_rows listed xs) ≡ true
unfolding first_rows
distinct-first_rows [] listed = refl
distinct-first_rows (x ∷ xs) listed = ground (
  arith,
  distinct-first_rows xs (set_insert (row_id x) listed),
  has_id-first_rows (row_id x) xs (set_insert (row_id x) listed),
  set_contains-set_insert (row_id x) (row_id x) listed,
  str_eq_iff (row_id x) (row_id x),
  row_id-id_text x,
)

module _ (P : Platform) where
  -- Of each row, take the name, the IP and the port as one text, with `|` between them. The table of
  -- `backends` shows rows of which no two have the same text, and a row with some text exactly if
  -- `getBackendList` has one.
  pub backends-distinct :
      (service : Str) (full : Bool) (s : Services P)
      → (rows : List Row) × ((backends P service full s).rows ≡ map (cells full) rows)
        × (distinct rows ≡ true)
        × ((id : Str) → has_id id rows ≡ has_id id (get_backend_list P service s))
  unfolding backends get_backend_list
  backends-distinct service full s =
      let listed = rows_at P (service_uri P s service) s.services_by_uri in
      (
        first_rows [] listed,
        refl,
        distinct-first_rows listed [],
        λ id. unfold set_contains in ground (arith, has_id-first_rows id listed []),
      )
