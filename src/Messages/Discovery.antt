-- ===== src/Messages/Discovery.antt =====
-- What a reply of a backend leaves in the frontend's services.
use mathlib.Core.List.{append_assoc, append-nil}
use smartmet_engine_sputnik.Prelude.{
  ℕ, ◌+◌, ◌%◌, ◌^◌, ◌<◌, ◌≡◌, ◌≢◌, refl, sym, ap, ◌∙◌, ◌⊎◌, Bool, true, false, List, [], ◌∷◌, ◌++◌,
  none, some, map, if◌then◌else◌, is_empty, keep, keep-append, ℤ, pos, negsuc, int_eq_iff, arith,
}
use smartmet_engine_sputnik.Text.{Str, str_eq}
use smartmet_engine_sputnik.Platform.{Platform}
use smartmet_engine_sputnik.Spine.{Reactor}
use smartmet_engine_sputnik.Outcome.{ok, err, negative_overflow}
use smartmet_engine_sputnik.Backend.{BackendServer, BackendService}
use smartmet_engine_sputnik.Services.{
  Services, add_service, add_backend_info_request, is_latest, latest_sequence,
}
use smartmet_engine_sputnik.Services.Provided.{
  provided, provided_in, provided-add_service, provided-latest_sequence,
}
use smartmet_engine_sputnik.Messages.{
  service_discovery_request, service_discovery_reply, HostInfo, Service, InfoQuery,
  BroadcastMessage, BackendState, cast_unsigned, cast_int, throttle_of, server_of, service_of,
  direct_uri, discovery_reply, process_request, add_both, add_services, request_of, add_requests,
  process_reply, reply_service,
}

-- A reply that a frontend accepts.
abbrev pub IsReply : {F : Type 0} → BroadcastMessage F → HostInfo F → Type 0
IsReply message host =
    (message.message_type ≡ service_discovery_reply)
    × (message.host ≡ some host)
    × (is_empty message.services ≡ false)

is_empty-map :
    {A B : Type 0} (f : A → B) (xs : List A) → is_empty xs ≡ false → is_empty (map f xs) ≡ false
is_empty-map f [] h = h
is_empty-map f (x ∷ xs) h = refl

-- What a reply says of a URI that the reactor serves.
abbrev pub offered : Str × Bool → Service
offered (uri, prefix) = record {
  uri = uri;
  last_update = pos 0;
  allow_cache = false;
  is_prefix = some prefix;
}

module _ {F : Type 0} where
  -- The backend that a reply tells of, by the names of the fields.
  abbrev pub announcer : BroadcastMessage F → HostInfo F → ℕ → BackendServer F
  announcer message host throttle = record {
    name = message.name;
    ip = host.ip;
    port = host.port;
    comment = host.comment;
    load = host.load;
    throttle = throttle;
  }

  -- What a service of a reply is registered as: a prefix only if the field is there and says so.
  abbrev pub registered : BroadcastMessage F → BackendServer F → Service → BackendService F
  registered message server service = record {
    backend = server;
    uri = service.uri;
    last_update = service.last_update;
    allow_cache = service.allow_cache;
    sequence_number = message.seqnum;
    defines_prefix = elim service.is_prefix [ none ↦ false | some prefix ↦ prefix ];
  }

  -- The services that one service of a reply adds under the URI `key`: itself if `key` is its URI,
  -- and itself if `key` is the URI that selects the host.
  abbrev announced_one :
      BroadcastMessage F → BackendServer F → Str → Service → List (BackendService F)
  announced_one message server key service =
      (if str_eq service.uri key then registered message server service ∷ [] else [])
      ++ (if str_eq (b'/' ∷ (message.name ++ service.uri)) key
          then registered message server service ∷ []
          else [])

  -- The services that a reply adds under the URI `key`.
  unfoldable pub announced :
      BroadcastMessage F → BackendServer F → Str → List Service → List (BackendService F)
  announced message server key [] = []
  announced message server key (service ∷ services) =
      announced_one message server key service ++ announced message server key services

  announced-latest :
      (message : BroadcastMessage F) (server : BackendServer F) (key : Str)
      (services : List Service)
      → keep (is_latest message.seqnum) (announced message server key services)
        ≡ announced message server key services
  unfolding announced
  announced-latest message server key [] = refl
  announced-latest message server key (service ∷ services) = ground (
    arith,
    int_eq_iff message.seqnum message.seqnum,
    announced-latest message server key services,
  )

module _ (P : Platform) where
  module _ (r : Reactor) (now : ℕ) (message : BroadcastMessage P.Float) (host : HostInfo P.Float)
      (throttle : ℕ) where
    provided-add_both :
        (service : Service) (s : Services P) (key : Str)
        → provided P (add_both P r now message host throttle service s) key
          ≡ provided P s key ++ announced_one message (server_of message host throttle) key service
    unfolding add_both service_of direct_uri
    provided-add_both service s key =
        let b = service_of (server_of message host throttle) message.seqnum service in
        provided-add_service P r now b (direct_uri message.name service.uri) host.load throttle
          (add_service P r now (some b) service.uri host.load throttle s).0 key
        ∙ ap (λ ss. ss ++ (if str_eq (direct_uri message.name service.uri) key then b ∷ [] else []))
            (provided-add_service P r now b service.uri host.load throttle s key)
        ∙ append_assoc (provided P s key) (if str_eq service.uri key then b ∷ [] else [])
            (if str_eq (direct_uri message.name service.uri) key then b ∷ [] else [])

    provided-add_services :
        (services : List Service) (s : Services P) (key : Str)
        → provided P (add_services P r now message host throttle services s) key
          ≡ provided P s key ++ announced message (server_of message host throttle) key services
    unfolding add_services announced
    provided-add_services [] s key = sym (append-nil (provided P s key))
    provided-add_services (service ∷ services) s key =
        provided-add_services services (add_both P r now message host throttle service s) key
        ∙ ap (λ ss. ss ++ announced message (server_of message host throttle) key services)
            (provided-add_both service s key)
        ∙ append_assoc (provided P s key)
            (announced_one message (server_of message host throttle) key service)
            (announced message (server_of message host throttle) key services)

  add_requests-by_uri :
      (server : BackendServer P.Float) (n : ℤ) (queries : List InfoQuery) (s : Services P)
      → (add_requests P server n queries s).services_by_uri ≡ s.services_by_uri
  unfolding add_requests add_backend_info_request
  add_requests-by_uri server n [] s = refl
  add_requests-by_uri server n (query ∷ queries) s =
      add_requests-by_uri server n queries
        (add_backend_info_request P (some (request_of P server n query)) s).0

  -- Without a shutdown, a reply with a host and services, whose throttle is not negative, is
  -- processed without an exception: every URI lists what it listed before and then what the reply
  -- announces under it, with its name, host and number, both under the service's own URI and under
  -- that behind `/` and the name; the counter of responses goes up by one, wrapping at 2^32.
  pub process_reply-provided :
      (r : Reactor) (now : ℕ) (message : BroadcastMessage P.Float) (host : HostInfo P.Float)
      (throttle received : ℕ) (s : Services P)
      → IsReply message host
      → throttle_of host ≡ pos throttle
      → (s' : Services P) × (process_reply P false r now message (s, received)
          ≡ ok (s', (received + 1) % 2 ^ 32))
        × ((key : Str)
            → provided P s' key
              ≡ provided P s key
                ++ announced message (announcer message host throttle) key message.services)
  unfolding process_reply cast_unsigned server_of
  process_reply-provided r now message host throttle received s (t, h, n) e =
      let server = server_of message host throttle in
      let added = add_services P r now message host throttle message.services s in
      (
        add_requests P server message.seqnum message.info_queries added,
        ground (arith, t, h, n, e),
        λ key.
            ap (λ m. provided_in P m key)
              (add_requests-by_uri server message.seqnum message.info_queries added)
            ∙ provided-add_services r now message host throttle message.services s key,
      )

  -- A message changes nothing, and counts as no response, if the engine is shutting down, or if it
  -- is no reply, has no host or has no service.
  pub process_reply-ignored :
      (r : Reactor) (now : ℕ) (stop : Bool) (message : BroadcastMessage P.Float) (received : ℕ)
      (s : Services P)
      → (stop ≡ true)
        ⊎ (message.message_type ≢ service_discovery_reply)
        ⊎ (message.host ≡ none)
        ⊎ (is_empty message.services ≡ true)
      → process_reply P stop r now message (s, received) ≡ ok (s, received)
  unfolding process_reply
  process_reply-ignored r now stop message received s refused = ground arith

  -- A reply with a negative throttle ends in an exception.
  pub process_reply-negative :
      (r : Reactor) (now : ℕ) (message : BroadcastMessage P.Float) (host : HostInfo P.Float)
      (received n : ℕ) (s : Services P)
      → IsReply message host
      → throttle_of host ≡ negsuc n
      → process_reply P false r now message (s, received) ≡ err negative_overflow
  unfolding process_reply cast_unsigned
  process_reply-negative r now message host received n s (t, h, f) e = ground (arith, t, h, f, e)

  -- The backend as its settings and its load describe it.
  abbrev pub host_server : BackendState P.Float → BackendServer P.Float
  host_server b = record {
    name = b.hostname;
    ip = b.http_address;
    port = pos b.http_port;
    comment = b.comment;
    load = b.current_load;
    throttle = b.throttle_limit;
  }

  -- One round of discovery, with no shutdown. A backend whose port and throttle fit an `int`, whose
  -- load fits a `float`, and that serves some URI answers the request `n` of a frontend. When the frontend has processed
  -- this answer and its deadline then keeps the services of the round `n`, every URI lists the
  -- services of this round that it listed before, and then those of the backend: its URIs, each
  -- under itself and behind `/` and the host name, with its name, address, port, comment, load and
  -- throttle limit and the number of the round.
  pub discovery-round :
      (r r' : Reactor) (now received : ℕ) (b : BackendState P.Float)
      (request : BroadcastMessage P.Float) (s : Services P)
      → b.http_port < 2 ^ 31
      → b.throttle_limit < 2 ^ 31
      → b.load_fits ≡ true
      → is_empty b.uri_map ≡ false
      → request.message_type ≡ service_discovery_request
      → (reply : BroadcastMessage P.Float) × (s' : Services P) × (process_request
            (record { at_start = false; later = false })
            b
            request
          ≡ ok (some reply))
        × (process_reply P false r now reply (s, received) ≡ ok (s', (received + 1) % 2 ^ 32))
        × ((key : Str)
            → provided P (latest_sequence P r' request.seqnum s') key
              ≡ keep (is_latest request.seqnum) (provided P s key)
                ++ announced reply (host_server b) key (map offered b.uri_map))
        × (reply.name ≡ b.hostname)
        × (reply.seqnum ≡ request.seqnum)
  unfolding process_request cast_int discovery_reply server_of reply_service
  discovery-round r r' now received b request s p t l u q =
      let reply = discovery_reply b request.seqnum (pos b.http_port) (pos b.throttle_limit) in
      let host : HostInfo P.Float = record {
        ip = b.http_address;
        port = pos b.http_port;
        comment = b.comment;
        load = b.current_load;
        throttle = some (pos b.throttle_limit);
      } in
      let server = server_of reply host b.throttle_limit in
      let (s', run, lists) =
        process_reply-provided r now reply host b.throttle_limit received s
          (refl, refl, is_empty-map reply_service b.uri_map u) refl in
      (
        reply,
        s',
        ground (arith, q, p, t, l),
        run,
        λ key.
            provided-latest_sequence P r' request.seqnum s' key
            ∙ ap (keep (is_latest request.seqnum)) (lists key)
            ∙ keep-append (is_latest request.seqnum) (provided P s key) _
            ∙ ap (◌++◌ (keep (is_latest request.seqnum) (provided P s key)))
                (announced-latest reply server key reply.services),
        refl,
        refl,
      )
