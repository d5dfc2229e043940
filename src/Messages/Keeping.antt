-- ===== src/Messages/Keeping.antt =====
-- What a message keeps of the frontend's services: whatever the calls of the registry keep that it
-- is made of.
use mathlib.Core.List.{Memᴰ}
use smartmet_engine_sputnik.Prelude.{
  ℕ, ◌+◌, ◌%◌, ◌^◌, ◌≡◌, refl, inl, inr, ◌⊎◌, Bool, true, false, List, [], ◌∷◌, Option, none, some,
  if◌then◌else◌, is_empty, Bool-cases, ℤ, pos, negsuc,
}
use smartmet_engine_sputnik.Text.{Str}
use smartmet_engine_sputnik.Platform.{Platform}
use smartmet_engine_sputnik.Spine.{Reactor}
use smartmet_engine_sputnik.Outcome.{Result, ok, err, ◌>>=◌}
use smartmet_engine_sputnik.Backend.{BackendServer, BackendService, BackendInfoRequest}
use smartmet_engine_sputnik.Services.{Services, add_service, add_backend_info_request}
use smartmet_engine_sputnik.Messages.{
  MessageType, service_discovery_request, service_discovery_reply, service_discovery_beacon,
  HostInfo, Service, InfoQuery, BroadcastMessage, cast_unsigned, throttle_of, server_of, service_of,
  direct_uri, add_both, add_services, request_of, add_requests, accept_reply, process_reply,
}

module _ (P : Platform) where
  -- A service that the message announces under the URI: one that it lists, on its host, with its
  -- number, under the service's URI or the one that selects the host.
  pub record IsAnnounced (message : BroadcastMessage P.Float) (b : BackendService P.Float)
      (uri : Str) : Type 0 where
    pub is_reply : message.message_type ≡ service_discovery_reply
    pub host : HostInfo P.Float
    pub throttle : ℕ
    pub hosted : message.host ≡ some host
    pub limited : throttle_of host ≡ pos throttle
    pub service : Service
    pub listed : Memᴰ service message.services
    pub same : b ≡ service_of (server_of message host throttle) message.seqnum service
    pub under : (uri ≡ service.uri) ⊎ (uri ≡ direct_uri message.name service.uri)

  -- What a call leaves, if it returns, satisfies `Q`.
  abbrev pub Leaves : (Services P → Type 0) → Result (Services P × ℕ) → Type 0
  Leaves Q (ok (s, received)) = Q s
  Leaves Q (err e) = Unit

  module _ (Q : Services P → Type 0) (r : Reactor) (now : ℕ)
      (message : BroadcastMessage P.Float) where
    -- The calls of `addService` for services of the message, and of `addBackendInfoRequest`, keep
    -- `Q`.
    pub record IsKept : Type 0 where
      pub by_service :
          (b : BackendService P.Float) (uri : Str) (load : P.Float) (throttle : ℕ) (s : Services P)
          → IsAnnounced message b uri
          → Q s
          → Q (add_service P r now (some b) uri load throttle s).0
      pub by_request :
          (q : BackendInfoRequest P.Float) (s : Services P)
          → Q s
          → Q (add_backend_info_request P (some q) s).0

    module _ (keeps : IsKept) where
      keep-add_services :
          (host : HostInfo P.Float) (throttle : ℕ)
          → message.message_type ≡ service_discovery_reply
          → message.host ≡ some host
          → throttle_of host ≡ pos throttle
          → (services : List Service)
          → ((service : Service) → Memᴰ service services → Memᴰ service message.services)
          → (s : Services P) → Q s
          → Q (add_services P r now message host throttle services s)
      unfolding add_services add_both
      keep-add_services host throttle m h e [] known s q = q
      keep-add_services host throttle m h e (service ∷ services) known s q =
          let at : Memᴰ service message.services = known service (Memᴰ.head refl) in
          let b = service_of (server_of message host throttle) message.seqnum service in
          let announced : (uri : Str)
              → (uri ≡ service.uri) ⊎ (uri ≡ direct_uri message.name service.uri)
              → IsAnnounced message b uri =
            λ uri under. record {
              is_reply = m;
              host = host;
              throttle = throttle;
              hosted = h;
              limited = e;
              service = service;
              listed = at;
              same = refl;
              under = under;
            } in
          keep-add_services host throttle m h e services (λ x i. known x (Memᴰ.tail i)) _
            (keeps.by_service _ _ _ _ _ (announced _ (inr refl))
              (keeps.by_service _ _ _ _ s (announced _ (inl refl)) q))

      keep-add_requests :
          (server : BackendServer P.Float) (n : ℤ) (queries : List InfoQuery) (s : Services P)
          → Q s
          → Q (add_requests P server n queries s)
      unfolding add_requests
      keep-add_requests server n [] s q = q
      keep-add_requests server n (query ∷ queries) s q =
          keep-add_requests server n queries
            (add_backend_info_request P (some (request_of P server n query)) s).0
            (keeps.by_request _ s q)

      keep-accept_reply :
          (host : HostInfo P.Float) (n : ℕ) (s : Services P) (t : ℤ)
          → message.message_type ≡ service_discovery_reply
          → message.host ≡ some host
          → throttle_of host ≡ t
          → Q s
          → Leaves Q (accept_reply P r now message host s >>= λ s'. ok (s', n))
      unfolding accept_reply cast_unsigned service_of server_of
      keep-accept_reply host n s (pos t) m h e q =
          rw (e, cast_unsigned)
            (keep-add_requests (server_of message host t) message.seqnum message.info_queries _
              (keep-add_services host t m h e message.services (λ x i. i) s q))
      keep-accept_reply host n s (negsuc t) m h e q = rw (e, cast_unsigned) tt

      -- Whatever message arrives, what these calls keep is kept.
      pub keep-process_reply :
          (stop : Bool) (received : ℕ) (s : Services P)
          → Q s
          → Leaves Q (process_reply P stop r now message (s, received))
      unfolding process_reply
      keep-process_reply true received s q = q
      keep-process_reply false received s q = by_type message.message_type refl message.host refl
        where
          by_host :
              message.message_type ≡ service_discovery_reply
              → (o : Option (HostInfo P.Float)) → message.host ≡ o
              → Leaves Q (elim o [
                | none ↦ ok (s, received)
                | some host ↦
                    if is_empty message.services
                    then ok (s, received)
                    else accept_reply P r now message host s >>= λ s'.
                        ok (s', (received + 1) % 2 ^ 32)
              ])
          by_host m none h = q
          by_host m (some host) h = elim (Bool-cases (is_empty message.services)) [
            | inl e ↦ rw e q
            | inr e ↦ rw e (keep-accept_reply host _ s _ m h refl q)
          ]

          by_type :
              (t : MessageType)
              → message.message_type ≡ t
              → (o : Option (HostInfo P.Float)) → message.host ≡ o
              → Leaves Q (elim t [
                | service_discovery_request ↦ ok (s, received)
                | service_discovery_beacon ↦ ok (s, received)
                | service_discovery_reply ↦ elim o [
                  | none ↦ ok (s, received)
                  | some host ↦
                      if is_empty message.services
                      then ok (s, received)
                      else accept_reply P r now message host s >>= λ s'.
                          ok (s', (received + 1) % 2 ^ 32)
                ]
              ])
          by_type service_discovery_request m o h = q
          by_type service_discovery_beacon m o h = q
          by_type service_discovery_reply m o h = by_host m o h
