-- ===== src/Tests/Data.antt =====
-- A platform whose numbers are natural ones and whose generator counts, and a small cluster.
use native.Mathlib.Nat.{mod-lt}
use smartmet_engine_sputnik.Prelude.{
  refl, ℕ, suc, ◌+◌, ◌*◌, ◌/◌, ◌%◌, ◌≤◌, ◌<◌, true, false, List, [], ◌∷◌, none, some, ltb, length,
  ℤ, pos, negsuc, arith,
}
use smartmet_engine_sputnik.Text.{Str, codes, split_at}
use smartmet_engine_sputnik.Platform.{Platform, IsRandom}
use smartmet_engine_sputnik.Spine.{Reactor, Request}
use smartmet_engine_sputnik.Backend.{BackendServer, BackendService, BackendInfo}
use smartmet_engine_sputnik.Services.Validity.{IsValid, initial-IsValid, add_service-IsValid}
use smartmet_engine_sputnik.Services.{Services, initial, add_service}
use smartmet_engine_sputnik.Messages.{
  BroadcastMessage, HostInfo, BackendState, service_discovery_request, service_discovery_reply,
}
use smartmet_engine_sputnik.Engine.Cycle.{IsSound}
use smartmet_engine_sputnik.Engine.{Frontend, endpoints}

abbrev pub pick : List ℕ → ℕ → ℕ
pick [] g = 0
pick (w ∷ ws) g = g % suc (length ws)

abbrev pub plain : Platform
plain = record {
  Float = ℕ;
  zero_f = 0;
  one_f = 1;
  two_f = 2;
  of_int = λ a. elim a [ pos n ↦ n | negsuc n ↦ 0 ];
  add = λ a b. a + b;
  mul = λ a b. a * b;
  div = λ a b. a / b;
  neg = λ a. a;
  lt = ltb;
  mul_double = λ a b. a * b;
  to_int = pos;
  exp = λ a. 1;
  Generator = ℕ;
  seeded = λ n. n;
  discrete = λ ws g. (pick ws g, g + 1);
  uniform = λ n g. (g % suc n, g + 1);
  is_address = λ text. true;
  stoi = λ text. some (pos 31337);
}

pick-lt : (ws : List ℕ) (g : ℕ) → 0 < length ws → pick ws g < length ws
pick-lt [] g h = h
pick-lt (w ∷ ws) g h = mod-lt g (omega arith)

uniform-le : (n g : ℕ) → g % suc n ≤ n
uniform-le n g = let h : g % suc n < suc n = mod-lt g (omega arith) in omega arith

pub plain-IsRandom : IsRandom plain
plain-IsRandom = record {
  uniform_range = λ n g. uniform-le n g;
  discrete_range = λ ws g h. pick-lt ws g h;
}

abbrev pub wms_uri : Str
wms_uri = codes "/wms"

-- Each backend answers one request.
abbrev pub calm : Reactor
calm = record { request_status = λ host port. pos 1 }

abbrev pub request : Request
request = record { resource = wms_uri; client_ip = codes "10.0.0.1"; header = λ name. none }

abbrev pub server_a : BackendServer ℕ
server_a = record {
  name = codes "a";
  ip = codes "10.1.0.1";
  port = pos 8080;
  comment = [];
  load = 1;
  throttle = 2;
}

abbrev pub server_b : BackendServer ℕ
server_b = record {
  name = codes "b";
  ip = codes "10.1.0.2";
  port = pos 8080;
  comment = [];
  load = 1;
  throttle = 2;
}

abbrev pub wms_on : BackendServer ℕ → ℤ → BackendService ℕ
wms_on server n = record {
  backend = server;
  uri = wms_uri;
  last_update = pos 0;
  allow_cache = false;
  sequence_number = n;
  defines_prefix = true;
}

abbrev pub info_on : BackendServer ℕ → BackendInfo ℕ
info_on server = record {
  host_name = server.name;
  port = server.port;
  load = server.load;
  throttle_counter = 0;
}

abbrev pub one_service : Services plain
one_service =
    (add_service plain calm 5 (some (wms_on server_a (pos 1))) wms_uri 1 2 (initial plain)).0

abbrev pub two_services : Services plain
two_services = (add_service plain calm 5 (some (wms_on server_b (pos 2))) wms_uri 1 2 one_service).0

pub one_service-IsValid : IsValid plain one_service
one_service-IsValid =
    add_service-IsValid plain calm 5 (some (wms_on server_a (pos 1))) wms_uri 1 2 (initial plain)
      (initial-IsValid plain)

pub two_services-IsValid : IsValid plain two_services
two_services-IsValid =
    add_service-IsValid plain calm 5 (some (wms_on server_b (pos 2))) wms_uri 1 2 one_service
      one_service-IsValid

-- A frontend in its second round, with two cycles allowed to pass without a response.
abbrev pub waiting : Frontend plain
waiting = record {
  services = two_services;
  frontend_sequence = 2;
  received_responses = 0;
  skipped_cycles = 0;
  max_skipped_cycles = 2;
  hostname = codes "front";
  backend_udp_listeners = codes "10.1.0.255:31337" ∷ [];
}

pub waiting-IsSound : IsSound plain waiting
unfolding endpoints split_at
waiting-IsSound = record {
  sequence_range = omega arith;
  destinations = refl;
  skipped_range = omega arith;
  max_range = omega arith;
  valid = two_services-IsValid;
}

abbrev pub backend_state : BackendState ℕ
backend_state = record {
  hostname = codes "a";
  http_address = codes "10.1.0.1";
  http_port = 8080;
  comment = [];
  throttle_limit = 2;
  current_load = 1;
  load_fits = true;
  uri_map = (wms_uri, true) ∷ [];
  admin_request_names = codes "qengine" ∷ [];
}

abbrev pub host_info : HostInfo ℕ
host_info = record {
  ip = codes "10.1.0.1";
  port = pos 8080;
  comment = [];
  load = 1;
  throttle = some (pos 2);
}

abbrev pub reply_message : BroadcastMessage ℕ
reply_message = record {
  name = codes "a";
  message_type = service_discovery_reply;
  seqnum = pos 3;
  host = some host_info;
  services =
      record { uri = wms_uri; last_update = pos 0; allow_cache = false; is_prefix = none } ∷ [];
  info_queries = record { name = codes "qengine"; last_update = pos 0 } ∷ [];
}

abbrev pub request_message : BroadcastMessage ℕ
request_message = record {
  name = codes "front";
  message_type = service_discovery_request;
  seqnum = pos 3;
  host = none;
  services = [];
  info_queries = [];
}

-- Every datagram is read as the same message.
abbrev pub parse_reply : Str → BroadcastMessage ℕ
parse_reply bytes = reply_message

abbrev pub parse_request : Str → BroadcastMessage ℕ
parse_request bytes = request_message
