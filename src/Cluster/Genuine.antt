-- ===== src/Cluster/Genuine.antt =====
-- Where the services come from that a frontend lists.
use mathlib.Core.List.{Memᴰ}
use mathlib.Core.Option.{some-injective}
use mathlib.Core.Path.{subst}
use smartmet_engine_sputnik.Prelude.{
  Mem-map, ℕ, ◌≡◌, sym, ap, ◌∙◌, inl, inr, ◌⊎◌, Bool, false, List, some, pos, arith,
}
use smartmet_engine_sputnik.Text.{Str}
use smartmet_engine_sputnik.Platform.{Platform}
use smartmet_engine_sputnik.Outcome.{ok}
use smartmet_engine_sputnik.Pause.{Pause}
use smartmet_engine_sputnik.Backend.{BackendService}
use smartmet_engine_sputnik.Messages.{
  BroadcastMessage, BackendState, Shutdown, service_discovery_request, direct_uri, discovery_reply,
  reply_service, process_request, cast_int, service_of, server_of, HostInfo, throttle_of,
}
use smartmet_engine_sputnik.Messages.Keeping.{IsAnnounced}
use smartmet_engine_sputnik.Engine.{Answer, handle_backend_read, success}

-- The part of the reply on the host.
abbrev pub host_of : {F : Type 0} → BackendState F → HostInfo F
host_of b = record {
  ip = b.http_address;
  port = pos b.http_port;
  comment = b.comment;
  load = b.current_load;
  throttle = some (pos b.throttle_limit);
}

module _ (P : Platform) (parse : Str → BroadcastMessage P.Float)
    (IsBackend : BackendState P.Float → Type 0) where
  -- A datagram that a backend has sent in answer to one of the requests.
  pub record IsAnswer (requests : List Str) (bytes : Str) : Type 0 where
    pub by : BackendState P.Float
    pub member : IsBackend by
    pub asked : Str
    pub sent : Memᴰ asked requests
    pub is_request : (parse asked).message_type ≡ service_discovery_request
    pub same :
        parse bytes
        ≡ discovery_reply by (parse asked).seqnum (pos by.http_port) (pos by.throttle_limit)

  -- A service that a backend offers, in answer to one of the requests: one of its URIs, on its
  -- address, under this URI or under the one that selects the host.
  pub record IsOffered (requests : List Str) (uri : Str) (b : BackendService P.Float) : Type 0 where
    pub by : BackendState P.Float
    pub member : IsBackend by
    pub asked : Str
    pub sent : Memᴰ asked requests
    pub is_request : (parse asked).message_type ≡ service_discovery_request
    pub path : Str
    pub prefix : Bool
    pub served : Memᴰ (path, prefix) by.uri_map
    pub under : (uri ≡ path) ⊎ (uri ≡ direct_uri by.hostname path)
    pub same : b ≡ (record {
      backend = record {
        name = by.hostname;
        ip = by.http_address;
        port = pos by.http_port;
        comment = by.comment;
        load = by.current_load;
        throttle = by.throttle_limit;
      };
      uri = path;
      last_update = pos 0;
      allow_cache = false;
      sequence_number = (parse asked).seqnum;
      defines_prefix = prefix;
    })

  -- A backend sends nothing but the reply to a request.
  pub handle_backend_read-sends :
      (bytes : Str) (stop stop' : Bool) (shutdown : Shutdown) (high : Bool) (now : ℕ)
      (b : BackendState P.Float) (p : Pause) {a : Answer P} {message : BroadcastMessage P.Float}
      → handle_backend_read P parse success bytes stop stop' shutdown high now b p ≡ ok a
      → a.reply ≡ some message
      → ((parse bytes).message_type ≡ service_discovery_request)
        × (message
            ≡ discovery_reply b (parse bytes).seqnum (pos b.http_port) (pos b.throttle_limit))
  unfolding handle_backend_read process_request cast_int
  handle_backend_read-sends bytes stop stop' shutdown high now b p e q = ground arith

  pub IsAnnounced-IsOffered :
      (requests : List Str) (bytes : Str) (b : BackendService P.Float) (uri : Str)
      → IsAnswer requests bytes
      → IsAnnounced P (parse bytes) b uri
      → IsOffered requests uri b
  unfolding service_of server_of reply_service discovery_reply
  IsAnnounced-IsOffered requests bytes b uri v w =
      let listed =
        subst (λ (m : BroadcastMessage P.Float). Memᴰ w.service m.services) v.same w.listed in
      let ((path, prefix), at, e) = Mem-map reply_service v.by.uri_map listed in
      let name : (parse bytes).name ≡ v.by.hostname =
        ap (λ (m : BroadcastMessage P.Float). m.name) v.same in
      let seqnum : (parse bytes).seqnum ≡ (parse v.asked).seqnum =
        ap (λ (m : BroadcastMessage P.Float). m.seqnum) v.same in
      let host : w.host ≡ host_of v.by =
        some-injective _ _ (sym w.hosted ∙ ap (λ (m : BroadcastMessage P.Float). m.host) v.same) in
      let throttle : pos w.throttle ≡ pos v.by.throttle_limit =
        sym w.limited ∙ ap throttle_of host in
      record {
        by = v.by;
        member = v.member;
        asked = v.asked;
        sent = v.sent;
        is_request = v.is_request;
        path = path;
        prefix = prefix;
        served = at;
        under = elim w.under [
          | inl u ↦ inl (ground (arith, e, u))
          | inr u ↦ inr (ground (arith, e, u, name))
        ];
        same = w.same ∙ ground (arith, e, name, seqnum, host, throttle);
      }
