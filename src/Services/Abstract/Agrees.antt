-- ===== src/Services/Abstract/Agrees.antt =====
-- The queries of the registry answer as the three functions and the map of prefixes say.
use mathlib.Core.Path.{subst}
use smartmet_engine_sputnik.Prelude.{
  ◌≡◌, refl, ap, ◌∙◌, inl, inr, List, [], ◌∷◌, map, some, Bool-cases, ℤ,
}
use smartmet_engine_sputnik.Text.{Str, str_eq}
use smartmet_engine_sputnik.Text.Order.{str_eq_iff}
use smartmet_engine_sputnik.OrderedMap.{OrderedMap, find}
use smartmet_engine_sputnik.OrderedMap.Laws.{IsSorted, Above, find-Above}
use smartmet_engine_sputnik.Platform.{Platform, IsRandom}
use smartmet_engine_sputnik.Spine.{Reactor, Request}
use smartmet_engine_sputnik.Outcome.{Returns}
use smartmet_engine_sputnik.Services.Listed.{Picks, get_service-Picks}
use smartmet_engine_sputnik.Services.Provided.{services_of, provided_in}
use smartmet_engine_sputnik.Services.Requests.{listed-requests}
use smartmet_engine_sputnik.Services.Hosts.{alive_of, query-alive_of}
use smartmet_engine_sputnik.Services.{Entry, query_backend_alive, get_service, Services, initial}
use smartmet_engine_sputnik.Services.Reports.{
  rows_at, row_of, service_uri, get_backend_list, get_info_request_backend_list,
}
use smartmet_engine_sputnik.PrefixMap.{translate}
use mathlib.Core.List.{append-nil}
use smartmet_engine_sputnik.Services.Abstract.{Call, View, empty, replay, run}
use smartmet_engine_sputnik.Services.Abstract.Refines.{initial-Shows}
use smartmet_engine_sputnik.Services.Abstract.Runs.{run-replay}

module _ (P : Platform) where
  -- What the queries of the registry answer.
  pub record Agrees (s : Services P) (a : View P) : Type 0 where
    pub backends :
        (service : Str)
        → get_backend_list P service s
          ≡ map (λ b. row_of b.backend) (a.listed (b'/' ∷ translate a.prefixes service))
    pub info_backends :
        (name : Str)
        → get_info_request_backend_list P name s ≡ map (λ q. row_of q.backend) (a.info name)
    pub alive :
        (host : Str) (port : ℤ) → query_backend_alive P host port s ≡ alive_of (a.state host port)
    pub chosen :
        (r : Reactor) (request : Request)
        → Returns
            (get_service P r request s)
            (λ (answer, s'). Picks P (a.listed (translate a.prefixes request.resource)) answer)

  rows_at-provided :
      (uri : Str) (m : OrderedMap (Entry P))
      → IsSorted m
      → rows_at P uri m ≡ map (λ b. row_of b.backend) (provided_in P m uri)
  unfolding rows_at find
  rows_at-provided uri [] v = refl
  rows_at-provided uri ((k, e) ∷ m) v =
      let rest = rows_at-provided uri m v.1 in
      elim (Bool-cases (str_eq k uri)) [
        | inl y ↦
            let nothing : rows_at P uri m ≡ [] =
              rest
              ∙ ap (λ o. map (λ b. row_of b.backend) (services_of P o))
                  (find-Above uri m (subst (λ z. Above z m) ((str_eq_iff k uri).0 y) v.0)) in
            rw y (rw nothing (append-nil _))
        | inr n ↦ rw n rest
      ]

  module _ (laws : IsRandom P) where
    -- If random draws are in the documented ranges: after any sequence of calls on a new registry
    -- that does not end the process, `setForwarding` with any mode among them, each query answers as
    -- the same calls, replayed on three functions, the list of URIs and the map of prefixes, say.
    -- Take the prefix that this map has for a URI. `getBackendList` lists the backends of the
    -- services under `/` and the prefix, `getInfoRequestBackendList` those of the info requests, in
    -- the order in which they came, `queryBackendAlive` follows the state of the backend's sentinel,
    -- and `getService` returns a service of the list of the request's prefix, or nothing if this
    -- list is empty.
    pub run-Agrees :
        (calls : List (Call P)) (s : Services P)
        → run P calls (initial P) ≡ some s
        → Agrees s (replay P calls (empty P))
    unfolding get_backend_list service_uri
    run-Agrees calls s e =
        let a = replay P calls (empty P) in
        let v = run-replay P laws calls (initial P) (empty P) e (initial-Shows P) in
        record {
          backends = λ service.
              rows_at-provided (service_uri P s service) s.services_by_uri v.valid.uris
              ∙ ap (map (λ b. row_of b.backend)) (v.listed (service_uri P s service))
              ∙ ap (λ m. map (λ b. row_of b.backend) (a.listed (b'/' ∷ translate m service)))
                  v.prefixes;
          info_backends =
              λ name. listed-requests P name s ∙ ap (map (λ q. row_of q.backend)) (v.info name);
          alive = λ host port. query-alive_of P host port s ∙ ap alive_of (v.state host port);
          chosen = λ r request.
              let (out, run, found) = get_service-Picks P laws r request s v.valid in
              (
                out,
                run,
                subst (λ ss. Picks P ss out.0)
                    (v.listed (translate s.prefix_map request.resource)
                      ∙ ap (λ m. a.listed (translate m request.resource)) v.prefixes)
                    found,
              );
        }
