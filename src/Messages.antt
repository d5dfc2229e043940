-- ===== src/Messages.antt =====
-- BroadcastMessage.proto and sputnik/Messages.cpp: the messages of service discovery, and what a
-- frontend and a backend do with them. The code that the protocol compiler generates is not in the
-- repository: a message is the record of what its accessors return, an optional field an `Option`
-- (an accessor returns the type's default for one that is missing). A scalar that the schema
-- requires and that the sender left out reads as its default too, so it is a plain field.
pub mod Discovery
pub mod Keeping
pub mod Validity
use smartmet_engine_sputnik.Prelude.{
  ℕ, ◌+◌, ◌%◌, ◌^◌, Bool, true, false, ◌&&◌, List, [], ◌∷◌, ◌++◌, Option, none, some, map,
  if◌then◌else◌, is_empty, leb, ltb, ℤ, pos, negsuc,
}
use smartmet_engine_sputnik.Text.{Str}
use smartmet_engine_sputnik.Platform.{Platform}
use smartmet_engine_sputnik.Spine.{Reactor}
use smartmet_engine_sputnik.Outcome.{Result, ok, err, negative_overflow, positive_overflow, ◌>>=◌}
use smartmet_engine_sputnik.Backend.{BackendServer, BackendService, BackendInfoRequest}
use smartmet_engine_sputnik.Services.{Services, add_service, add_backend_info_request}

pub data MessageType : Type 0 where
  service_discovery_request service_discovery_reply service_discovery_beacon : MessageType

pub record HostInfo (F : Type 0) : Type 0 where
  pub ip : Str
  pub port : ℤ
  pub comment : Str
  pub load : F
  pub throttle : Option ℤ

pub record Service : Type 0 where
  pub uri : Str
  pub last_update : ℤ
  pub allow_cache : Bool
  pub is_prefix : Option Bool

pub record InfoQuery : Type 0 where
  pub name : Str
  pub last_update : ℤ

pub record BroadcastMessage (F : Type 0) : Type 0 where
  pub name : Str
  pub message_type : MessageType
  pub seqnum : ℤ
  pub host : Option (HostInfo F)
  pub services : List Service
  pub info_queries : List InfoQuery

-- `boost::numeric_cast<unsigned int>` of an `int32`
unfoldable pub cast_unsigned : ℤ → Result ℕ
cast_unsigned (pos n) = ok n
cast_unsigned (negsuc n) = err negative_overflow

-- `boost::numeric_cast<int32_t>` of an `unsigned int`
unfoldable pub cast_int : ℕ → Result ℤ
cast_int n = if ltb n (2 ^ 31) then ok (pos n) else err positive_overflow

-- `host.throttle()`
abbrev pub throttle_of : {F : Type 0} → HostInfo F → ℤ
throttle_of host = elim host.throttle [ none ↦ pos 0 | some t ↦ t ]

-- `service.has_is_prefix() && service.is_prefix()`
abbrev pub is_prefix_of : Service → Bool
is_prefix_of service = elim service.is_prefix [ none ↦ false | some p ↦ p ]

unfoldable pub server_of : {F : Type 0} → BroadcastMessage F → HostInfo F → ℕ → BackendServer F
server_of message host throttle = record {
  name = message.name;
  ip = host.ip;
  port = host.port;
  comment = host.comment;
  load = host.load;
  throttle = throttle;
}

unfoldable pub service_of : {F : Type 0} → BackendServer F → ℤ → Service → BackendService F
service_of server seqnum service = record {
  backend = server;
  uri = service.uri;
  last_update = service.last_update;
  allow_cache = service.allow_cache;
  sequence_number = seqnum;
  defines_prefix = is_prefix_of service;
}

-- The URI that selects this one host.
unfoldable pub direct_uri : Str → Str → Str
direct_uri name uri = b'/' ∷ (name ++ uri)

-- What of the engine the messages carry, and what is read for each: the load and what the reactor
-- adds. If no number of cores is known, which is 0, the load is infinite and no `float` in range.
pub record BackendState (F : Type 0) : Type 0 where
  pub hostname : Str
  pub http_address : Str
  pub http_port : ℕ
  pub comment : Str
  pub throttle_limit : ℕ
  -- `getloadavg` over the number of cores, as a `float`, and whether `numeric_cast` takes it for one
  pub current_load : F
  pub load_fits : Bool
  -- the keys of `getURIMap()`, with `isURIPrefix` of each
  pub uri_map : List (Str × Bool)
  -- `getAdminRequestNames()`
  pub admin_request_names : List Str

unfoldable pub reply_service : Str × Bool → Service
reply_service (uri, prefix) = record {
  uri = uri;
  last_update = pos 0;
  allow_cache = false;
  is_prefix = some prefix;
}

unfoldable pub reply_query : Str → InfoQuery
reply_query name = record { name = name; last_update = pos 0 }

-- `sendDiscoveryRequest`, as the message that it serializes; `none` is the buffer left empty.
unfoldable pub send_discovery_request : (F : Type 0) → Bool → Str → ℤ → Option (BroadcastMessage F)
send_discovery_request F shutting_down hostname seqnum =
    if shutting_down
    then none
    else some (record {
      name = hostname;
      message_type = service_discovery_request;
      seqnum = seqnum;
      host = none;
      services = [];
      info_queries = [];
    })

-- What the tests of `isShuttingDown` in one call see: those before the message is begun, and those
-- between the host information and the end. Each ends the call with the buffer left empty.
pub record Shutdown : Type 0 where
  pub at_start : Bool
  pub later : Bool

module _ {F : Type 0} where
  -- The message that `sendDiscoveryReply` builds. The port is cast first, then the load, then the
  -- throttle.
  unfoldable pub discovery_reply : BackendState F → ℤ → ℤ → ℤ → BroadcastMessage F
  unfolding reply_service reply_query
  discovery_reply b seqnum port throttle = record {
    name = b.hostname;
    message_type = service_discovery_reply;
    seqnum = seqnum;
    host = some (record {
      ip = b.http_address;
      port = port;
      comment = b.comment;
      load = b.current_load;
      throttle = some throttle;
    });
    services = map reply_service b.uri_map;
    info_queries = map reply_query b.admin_request_names;
  }

  -- `sendDiscoveryReply`, as the message that it serializes; `none` is the buffer left empty.
  unfoldable pub send_discovery_reply :
      Shutdown → BackendState F → ℤ → Result (Option (BroadcastMessage F))
  unfolding cast_int discovery_reply
  send_discovery_reply shutdown b seqnum =
      if shutdown.at_start
      then ok none
      else cast_int b.http_port >>= λ port.
          if b.load_fits
          then (cast_int b.throttle_limit >>= λ throttle.
              if shutdown.later
              then ok none
              else ok (some (discovery_reply b seqnum port throttle)))
          else err positive_overflow

  -- `processRequest`: only a request is answered.
  unfoldable pub process_request :
      Shutdown → BackendState F → BroadcastMessage F → Result (Option (BroadcastMessage F))
  unfolding send_discovery_reply
  process_request shutdown b message =
      if shutdown.at_start then ok none else elim message.message_type [
        | service_discovery_request ↦ send_discovery_reply shutdown b message.seqnum
        | service_discovery_reply ↦ ok none
        | service_discovery_beacon ↦ ok none
      ]

module _ (P : Platform) where
  open P use {Float}

  -- The two calls of `addService` for one service of a reply.
  unfoldable pub add_both :
      Reactor → ℕ → BroadcastMessage Float → HostInfo Float → ℕ → Service → Services P → Services P
  unfolding server_of service_of direct_uri
  add_both r now message host throttle service s =
      let b = service_of (server_of message host throttle) message.seqnum service in
      let once = (add_service P r now (some b) service.uri host.load throttle s).0 in
      (add_service P r now (some b) (direct_uri message.name service.uri) host.load throttle once).0

  unfoldable pub add_services :
      Reactor
      → ℕ
      → BroadcastMessage Float
      → HostInfo Float
      → ℕ
      → List Service
      → Services P
      → Services P
  unfolding add_both
  add_services r now message host throttle [] s = s
  add_services r now message host throttle (service ∷ services) s =
      add_services r now message host throttle services
        (add_both r now message host throttle service s)

  unfoldable pub request_of : BackendServer Float → ℤ → InfoQuery → BackendInfoRequest Float
  request_of server seqnum query = record {
    backend = server;
    name = query.name;
    last_update = query.last_update;
    sequence_number = seqnum;
  }

  unfoldable pub add_requests : BackendServer Float → ℤ → List InfoQuery → Services P → Services P
  unfolding request_of
  add_requests server seqnum [] s = s
  add_requests server seqnum (query ∷ queries) s =
      add_requests server seqnum queries
        (add_backend_info_request P (some (request_of server seqnum query)) s).0

  -- What `processReply` does with a message that has the fields of a reply.
  unfoldable pub accept_reply :
      Reactor → ℕ → BroadcastMessage Float → HostInfo Float → Services P → Result (Services P)
  unfolding cast_unsigned add_services add_requests
  accept_reply r now message host s = cast_unsigned (throttle_of host) >>= λ throttle. ok (
      add_requests (server_of message host throttle) message.seqnum message.info_queries
        (add_services r now message host throttle message.services s))

  -- `processReply`: the services, and the counter of received responses, an `unsigned int`.
  unfoldable pub process_reply :
      Bool → Reactor → ℕ → BroadcastMessage Float → Services P × ℕ → Result (Services P × ℕ)
  unfolding accept_reply
  process_reply shutting_down r now message (s, received) =
      if shutting_down then ok (s, received) else elim message.message_type [
        | service_discovery_request ↦ ok (s, received)
        | service_discovery_beacon ↦ ok (s, received)
        | service_discovery_reply ↦ elim message.host [
          | none ↦ ok (s, received)
          | some host ↦
              if is_empty message.services
              then ok (s, received)
              else accept_reply r now message host s >>= λ s'. ok (s', (received + 1) % 2 ^ 32)
        ]
      ]
