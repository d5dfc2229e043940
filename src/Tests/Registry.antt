-- ===== src/Tests/Registry.antt =====
-- The registry of services and its reports.
use smartmet_engine_sputnik.Services.Answers.{get_service-Answers, Answers}
use smartmet_engine_sputnik.Prelude.{
  ◌≡◌, refl, true, not, List, [], ◌∷◌, ◌++◌, none, some, map, keep, if◌then◌else◌, pos,
}
use smartmet_engine_sputnik.Text.{Str, codes, str_eq}
use smartmet_engine_sputnik.OrderedMap.{find, assign, map_values}
use smartmet_engine_sputnik.Outcome.{Returns}
use smartmet_engine_sputnik.Services.Provided.{
  provided, provided-latest_sequence, provided-remove_backend, provided-add_service,
}
use smartmet_engine_sputnik.Services.Reports.Listing.{backends-distinct, distinct, has_id}
use smartmet_engine_sputnik.Services.Reports.{Row, backends, cells, get_backend_list}
use smartmet_engine_sputnik.Sentinel.{set_alive}
use smartmet_engine_sputnik.Services.Abstract.{
  Call, added, updated, cleaned, forwarded, replay, empty,
}
use smartmet_engine_sputnik.Services.Abstract.Agrees.{Agrees, run-Agrees}
use smartmet_engine_sputnik.Services.{
  update_sentinel, Services, is_removed, is_latest, get_service, add_service, latest_sequence,
  remove_backend, initial,
}
use smartmet_engine_sputnik.Forwarder.{sticky}
use smartmet_engine_sputnik.Services.{set_forwarding, parse_mode}
use smartmet_engine_sputnik.Tests.Data.{
  server_a, plain, plain-IsRandom, calm, request, wms_uri, server_b, wms_on, one_service,
  two_services, two_services-IsValid,
}

get_service-Answers_example :
    Returns (get_service plain calm request two_services) (Answers plain two_services wms_uri)
get_service-Answers_example =
    get_service-Answers plain plain-IsRandom calm request two_services two_services-IsValid

-- What is left when the backend `a` has gone.
abbrev left : Services plain
left = elim (remove_backend plain calm (codes "a") (pos 8080) [] two_services) [
  | none ↦ two_services
  | some s ↦ s
]

left-some : remove_backend plain calm (codes "a") (pos 8080) [] two_services ≡ some left
unfolding remove_backend add_service find assign map_values str_eq initial
left-some = refl

provided-latest_sequence_example :
    provided plain (latest_sequence plain calm (pos 2) two_services) wms_uri
    ≡ keep (is_latest (pos 2)) (provided plain two_services wms_uri)
provided-latest_sequence_example = provided-latest_sequence plain calm (pos 2) two_services wms_uri

provided-remove_backend_example :
    provided plain left wms_uri
    ≡ keep (λ b. not (is_removed (codes "a") (pos 8080) [] b)) (provided plain two_services wms_uri)
provided-remove_backend_example =
    provided-remove_backend plain calm (codes "a") (pos 8080) [] two_services left-some wms_uri

provided-add_service_example :
    provided plain two_services wms_uri
    ≡ provided plain one_service wms_uri
      ++ (if str_eq wms_uri wms_uri then wms_on server_b (pos 2) ∷ [] else [])
provided-add_service_example =
    provided-add_service plain calm 5 (wms_on server_b (pos 2)) wms_uri 1 2 one_service wms_uri

backends-distinct_example :
    (rows : List Row) × ((backends plain (codes "wms") true two_services).rows
      ≡ map (cells true) rows)
    × (distinct rows ≡ true)
    × ((id : Str) → has_id id rows ≡ has_id id (get_backend_list plain (codes "wms") two_services))
backends-distinct_example = backends-distinct plain (codes "wms") true two_services

abbrev calls : List (Call plain)
calls =
    added calm 5 (wms_on server_a (pos 1)) wms_uri 1 2
    ∷ added calm 5 (wms_on server_b (pos 2)) wms_uri 1 2
    ∷ updated set_alive (codes "10.1.0.1") (pos 8080)
    ∷ cleaned calm (pos 2)
    ∷ forwarded (codes "sticky") 2 (codes "id")
    ∷ []

abbrev remaining : Services plain
remaining =
    record (latest_sequence plain calm (pos 2)
      (update_sentinel plain set_alive (codes "10.1.0.1") (pos 8080) two_services)) {
        fwd_mode = sticky;
        balancing_coefficient = 2;
        cookie_name = codes "id";
      }

run-Agrees_example : Agrees plain remaining (replay plain calls (empty plain))
unfolding set_forwarding parse_mode str_eq
run-Agrees_example = run-Agrees plain plain-IsRandom calls remaining refl
