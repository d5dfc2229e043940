-- ===== src/Services/Reports.antt =====
-- The reports of Services.cpp: who provides a service or an info request, and the status page.
-- `SmartMet::Spine::Table` is its title, its column names and its rows.
pub mod Listing
use smartmet_engine_sputnik.Prelude.{
  Bool, true, false, ◌&&◌, not, List, [], ◌∷◌, ◌++◌, Option, none, some, map, if◌then◌else◌,
  is_empty, ℤ,
}
use smartmet_engine_sputnik.Text.{Str, codes, str_eq, to_string}
use smartmet_engine_sputnik.OrderedMap.{OrderedMap, find, set_insert, set_contains}
use smartmet_engine_sputnik.Platform.{Platform}
use smartmet_engine_sputnik.Backend.{BackendServer, BackendService, BackendInfoRequest}
use smartmet_engine_sputnik.PrefixMap.{translate}
use smartmet_engine_sputnik.Services.{Entry, Services}

pub record Table : Type 0 where
  pub title : Str
  pub names : List Str
  pub rows : List (List Str)

-- `boost::tuple<std::string, std::string, int>`
abbrev pub Row : Type 0
Row = Str × Str × ℤ

abbrev pub row_of : {F : Type 0} → BackendServer F → Row
row_of b = (b.name, b.ip, b.port)

-- `backendName + "|" + backendIP + "|" + std::to_string(backendPort)`
unfoldable pub row_id : Row → Str
row_id (name, ip, port) = name ++ (b'|' ∷ (ip ++ (b'|' ∷ to_string port)))

-- The loop of `backends`, with the ids that are listed already; `insert` of one of these is no
-- change, so the rest of the loop has the same set on both branches.
unfoldable pub first_rows : List Str → List Row → List Row
first_rows listed [] = []
first_rows listed (x ∷ xs) =
    let rest = first_rows (set_insert (row_id x) listed) xs in
    if set_contains (row_id x) listed then rest else x ∷ rest

unfoldable pub cells : Bool → Row → List Str
cells full (name, ip, port) = name ∷ (if full then ip ∷ to_string port ∷ [] else [])

-- The bytes of the status page for one service.
unfoldable pub status_service : {F : Type 0} → Bool → BackendService F → Str
status_service full s =
    codes "<li>"
    ++ (s.backend.name
        ++ (s.uri
            ++ ((if full
                  then codes " ["
                    ++ (s.backend.ip
                        ++ (codes ":"
                            ++ (to_string s.backend.port
                                ++ (codes "] [Sequence "
                                    ++ (to_string s.sequence_number ++ codes "]")))))
                  else [])
                ++ (codes "</li>" ++ 10 ∷ []))))

unfoldable pub status_services : {F : Type 0} → Bool → List (BackendService F) → Str
unfolding status_service
status_services full [] = []
status_services full (s ∷ ss) = status_service full s ++ status_services full ss

module _ (P : Platform) where
  open P use {Float}

  -- The loop over the entries whose key is the service's URI, and the loop over their backends.
  unfoldable pub rows_at : Str → OrderedMap (Entry P) → List Row
  rows_at uri [] = []
  rows_at uri ((k, e) ∷ es) =
      let rest = rows_at uri es in
      if str_eq k uri then map (λ s. row_of s.backend) e.services ++ rest else rest

  -- `"/" + itsPrefixMap(service)`
  unfoldable pub service_uri : Services P → Str → Str
  service_uri s service = b'/' ∷ translate s.prefix_map service

  unfoldable pub get_backend_list : Str → Services P → List Row
  unfolding rows_at service_uri
  get_backend_list service s = rows_at (service_uri s service) s.services_by_uri

  unfoldable pub backends : Str → Bool → Services P → Table
  unfolding rows_at service_uri first_rows cells
  backends service full s = record {
    title = codes "Backends" ++ (if is_empty service then [] else codes " for service " ++ service);
    names = if full then codes "Backend" ∷ codes "IP" ∷ codes "Port" ∷ [] else codes "Backend" ∷ [];
    rows = map (cells full) (first_rows [] (rows_at (service_uri s service) s.services_by_uri));
  }

  unfoldable pub get_info_request_backend_list : Str → Services P → List Row
  get_info_request_backend_list name s = elim (find name s.info_requests) [
    | none ↦ []
    | some qs ↦ map (λ q. row_of q.backend) qs
  ]

  unfoldable pub names_provided : OrderedMap (List (BackendInfoRequest Float)) → List Str → List Str
  names_provided [] names = names
  names_provided ((name, qs) ∷ m) names =
      names_provided m (if is_empty qs then names else set_insert name names)

  unfoldable pub get_info_request_names : Services P → List Str
  unfolding names_provided
  get_info_request_names s = names_provided s.info_requests []

  unfoldable pub status_entries : Bool → OrderedMap (Entry P) → Str
  unfolding status_services
  status_entries full [] = []
  status_entries full ((uri, e) ∷ es) =
      codes "<li>URI "
      ++ (uri
          ++ (codes "</li>"
              ++ (10
                  ∷ (codes "<ol>"
                      ++ (10
                          ∷ (status_services full e.services
                              ++ (codes "</ol>" ++ (10 ∷ status_entries full es))))))))

  unfoldable pub status : Bool → Services P → Str
  unfolding status_entries
  status full s = codes "<ul>" ++ (10 ∷ status_entries full s.services_by_uri)
