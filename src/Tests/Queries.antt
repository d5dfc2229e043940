-- ===== src/Tests/Queries.antt =====
-- The info requests and the prefixes of the registry.
use smartmet_engine_sputnik.Prelude.{
  ℕ, ◌≡◌, refl, not, ◌&&◌, [], ◌∷◌, ◌++◌, none, some, map, keep, if◌then◌else◌, pos,
}
use smartmet_engine_sputnik.Text.{codes, str_eq}
use smartmet_engine_sputnik.OrderedMap.{find, assign, map_values, set_contains}
use smartmet_engine_sputnik.Backend.{BackendInfoRequest}
use smartmet_engine_sputnik.PrefixMap.{backend_service_id, ids_of}
use smartmet_engine_sputnik.Services.Reports.{row_of, get_info_request_backend_list}
use smartmet_engine_sputnik.Services.Requests.{requests, backend_list-round}
use smartmet_engine_sputnik.Services.Prefixes.{in_lists, ids_of-remove_backend}
use smartmet_engine_sputnik.Services.{
  Services, is_latest_request, latest_sequence, add_backend_info_request, remove_backend,
  add_service, initial,
}
use smartmet_engine_sputnik.Tests.Data.{
  plain, calm, wms_uri, server_a, server_b, wms_on, two_services, two_services-IsValid,
}

abbrev query : BackendInfoRequest ℕ
query = record {
  backend = server_a;
  name = codes "qengine";
  last_update = pos 0;
  sequence_number = pos 2;
}

backend_list-round_example :
    get_info_request_backend_list plain (codes "qengine") (
      latest_sequence plain calm
        (pos 2)
        (add_backend_info_request plain (some query) two_services).0)
    ≡ map
        (λ q. row_of q.backend)
        (keep (is_latest_request (pos 2)) (
          requests plain two_services (codes "qengine")
          ++ (if str_eq query.name (codes "qengine") then query ∷ [] else [])))
backend_list-round_example =
    backend_list-round plain calm (pos 2) query two_services (codes "qengine")

-- The backend `a` is removed for the URI `/wms`, which `b` serves too.
abbrev left : Services plain
left = elim (remove_backend plain calm (codes "a") (pos 8080) wms_uri two_services) [
  | none ↦ two_services
  | some s ↦ s
]

left-some : remove_backend plain calm (codes "a") (pos 8080) wms_uri two_services ≡ some left
unfolding remove_backend add_service find assign map_values str_eq initial
left-some = refl

ids_of-remove_backend_example :
    set_contains (backend_service_id (wms_on server_b (pos 2))) (ids_of wms_uri left.prefix_map) ≡ (
      set_contains
        (backend_service_id (wms_on server_b (pos 2)))
        (ids_of wms_uri two_services.prefix_map)
      && not (
          str_eq wms_uri wms_uri
          && in_lists plain
              (backend_service_id (wms_on server_b (pos 2)))
              two_services.services_by_uri))
ids_of-remove_backend_example =
    ids_of-remove_backend plain calm (codes "a") (pos 8080) wms_uri two_services
      two_services-IsValid left-some wms_uri (backend_service_id (wms_on server_b (pos 2)))
