-- ===== src/Cluster/Round/Found.antt =====
-- A service that a backend serves is found after the round in which the backend has answered.
use mathlib.Core.List.{Memᴰ}
use mathlib.Core.Path.{subst}
use smartmet_engine_sputnik.Prelude.{
  ℕ, ◌+◌, ◌%◌, ◌≡◌, ◌≢◌, sym, ap, ◌∙◌, inl, inr, ◌⊎◌, Bool, false, List, Option, map, ◌++◌, some,
  All, Bool-cases, pos, arith,
}
use smartmet_engine_sputnik.Text.{Str, str_eq}
use smartmet_engine_sputnik.Text.Order.{str_eq_iff}
use smartmet_engine_sputnik.Platform.{Platform, IsRandom}
use smartmet_engine_sputnik.Spine.{Reactor, Request}
use smartmet_engine_sputnik.Outcome.{ok, bind-ok, Returns}
use smartmet_engine_sputnik.Pause.{Pause, is_paused}
use smartmet_engine_sputnik.PrefixMap.{translate}
use smartmet_engine_sputnik.Backend.{BackendService}
use smartmet_engine_sputnik.Services.{get_service}
use smartmet_engine_sputnik.Services.Listed.{get_service-Picks}
use smartmet_engine_sputnik.Services.Provided.{provided}
use smartmet_engine_sputnik.Messages.{
  BroadcastMessage, BackendState, discovery_reply, send_discovery_request, direct_uri,
}
use smartmet_engine_sputnik.Engine.Handlers.{IsPortable, handle_backend_read-reply}
use smartmet_engine_sputnik.Engine.Cycle.{
  request_sent, IsSound, finished, next, finished-IsSound, next-IsSound, handle_deadline_timer-next,
}
use smartmet_engine_sputnik.Engine.{
  Answer, Sent, success, handle_deadline_timer, handle_backend_read, Endpoint, Sending, Frontend,
}
use smartmet_engine_sputnik.Cluster.Round.Reading.{IsHarmless}
use smartmet_engine_sputnik.Cluster.Round.Delivery.{offer, reads-offer, finished-Mem}
use smartmet_engine_sputnik.Cluster.{Fits, buffer, sent_back, received, received-of_Fits}
use smartmet_engine_sputnik.Cluster.Round.{asked, Arrival, reads, round}

module _ (P : Platform) (serialize : BroadcastMessage P.Float → Str)
    (parse : Str → BroadcastMessage P.Float) where
  -- What a frontend that lists the service answers to the request.
  abbrev pub Finds : Frontend P → Reactor → Request → Str → BackendService P.Float → Type 0
  Finds s r request uri b =
      Memᴰ b (provided P s.services uri)
      × ((translate s.services.prefix_map request.resource ≢ uri)
          ⊎ Returns (get_service P r request s.services) (λ (answer, services).
            (x : BackendService P.Float) × (answer ≡ some x) × Memᴰ x (provided P s.services uri)))

  listed-Finds :
      IsRandom P
      → (s : Frontend P) (r : Reactor) (request : Request) (uri : Str) (b : BackendService P.Float)
      → IsSound P s
      → Memᴰ b (provided P s.services uri)
      → Finds s r request uri b
  listed-Finds laws s r request uri b v i = (
    i,
    elim (Bool-cases (str_eq (translate s.services.prefix_map request.resource) uri)) [
      | inr n ↦ inl (λ e. cc (sym ((str_eq_iff _ uri).1 e) ∙ n))
      | inl y ↦
          let same =
            ap (provided P s.services)
              ((str_eq_iff (translate s.services.prefix_map request.resource) uri).0 y) in
          let (out, run, found) = get_service-Picks P laws r request s.services v.valid in
          inr (
            out,
            run,
            elim found [
              | inl nothing ↦ elim (subst (Memᴰ b) (sym same ∙ nothing.1) i) [ ]
              | inr (x, given, at) ↦ (x, given, subst (Memᴰ x) same at)
            ],
          )
    ],
  )

  -- A round, call by call.
  round-steps :
      (takes : Endpoint → Bool) (r r' : Reactor) (now : ℕ) (b : BackendState P.Float) (p : Pause)
      (before : List Arrival) (reactor : Reactor) (later : ℕ) (after : List Arrival)
      (s s1 s2 s3 : Frontend P) (sent sent' : Option (Sent P)) (answer : Answer P)
      → handle_deadline_timer P success r false (record { shutting_down = false; takes = takes }) s
        ≡ ok (s1, sent)
      → handle_backend_read P parse success
          (received (asked P serialize parse sent))
          false
          false
          (record { at_start = false; later = false })
          false
          now
          b
          p
        ≡ ok answer
      → reads P serialize parse
          (before
            ++ (map
                  (λ datagram. record { reactor = reactor; now = later; bytes = received datagram })
                  (sent_back P serialize parse answer)
                ++ after))
          s1
        ≡ ok s2
      → handle_deadline_timer P success r' false
          (record { shutting_down = false; takes = takes })
          s2
        ≡ ok (s3, sent')
      → round P serialize parse takes r r' now b p before (reactor, later) after s ≡ ok s3
  round-steps takes r r' now b p before reactor later after s s1 s2 s3 sent sent' answer e1 e2 e3
        e4 =
      bind-ok _ e1 ∙ bind-ok _ e2 ∙ bind-ok _ e3 ∙ bind-ok _ e4

  module _ (laws : IsRandom P)
      (parsed : (message : BroadcastMessage P.Float) → parse (serialize message) ≡ message) where
    -- If protobuf reads what it writes, and random draws are in the documented ranges: at a sound
    -- frontend, let the deadline end a round and start the next, and let a backend hear the request
    -- of the new round that is not shutting down, paused or under high load, whose port and throttle
    -- fit an `int`, and whose load fits a `float`. Let the request and the reply fit the buffers of
    -- their receivers. If the frontend reads the backend's reply in this round, among other
    -- datagrams without a negative throttle, then all the calls return. At the end of the round
    -- every URI that the backend serves, and this URI on its host, lists the service on this
    -- backend with the number of the round, and `getService` returns one of the services of this
    -- list for each request with this prefix.
    pub round-Finds :
        (takes : Endpoint → Bool) (r r' r'' reactor : Reactor) (now later : ℕ)
        (b : BackendState P.Float) (p : Pause) (before after : List Arrival) (s : Frontend P)
        (request : Request) (path uri : Str) (prefix : Bool)
        → IsSound P s
        → All (λ x. IsHarmless P serialize parse (parse x.bytes)) before
        → All (λ x. IsHarmless P serialize parse (parse x.bytes)) after
        → IsPortable P parse b
        → (is_paused now p).0 ≡ false
        → Memᴰ (path, prefix) b.uri_map
        → (uri ≡ path) ⊎ (uri ≡ direct_uri b.hostname path)
        → Fits (
            buffer P serialize parse (
              send_discovery_request P.Float false s.hostname
                (pos ((s.frontend_sequence + 1) % 65535))))
        → Fits (
            serialize (
              discovery_reply b
                (pos ((s.frontend_sequence + 1) % 65535))
                (pos b.http_port)
                (pos b.throttle_limit)))
        → Returns
            (round P serialize parse takes r r' now b p before (reactor, later) after s)
            (λ s'.
              Finds s' r'' request uri
                (offer P serialize parse b (pos ((s.frontend_sequence + 1) % 65535)) path prefix))
    unfolding send_discovery_request
    round-Finds takes r r' r'' reactor now later b p before after s request path uri prefix v h h'
          portable running served under fits fits' =
        let sending : Sending = record { shutting_down = false; takes = takes } in
        let s1 = next P (finished P r s) in
        let v1 = next-IsSound P (finished P r s) (finished-IsSound P r s v) in
        let n : s1.frontend_sequence ≡ (s.frontend_sequence + 1) % 65535 = ground arith in
        let same_name : s1.hostname ≡ s.hostname = ground arith in
        let request_bytes = asked P serialize parse (some (request_sent P sending s1)) in
        let bytes = received request_bytes in
        let same_request : request_bytes
            ≡ buffer P serialize parse (
                send_discovery_request P.Float false s.hostname
                  (pos ((s.frontend_sequence + 1) % 65535))) =
          ap
            (λ (name : Str).
              buffer P serialize parse
                (send_discovery_request P.Float false name (pos s1.frontend_sequence)))
            same_name
          ∙ ap
              (λ (number : ℕ).
                buffer P serialize parse
                  (send_discovery_request P.Float false s.hostname (pos number)))
              n in
        let message =
          ap parse (received-of_Fits request_bytes (subst Fits (sym same_request) fits))
          ∙ parsed _ in
        let answer =
          handle_backend_read-reply P parse bytes now b p portable running
            (ap (λ (m : BroadcastMessage P.Float). m.message_type) message) in
        let arrival : Arrival = record {
          reactor = reactor;
          now = later;
          bytes = received (
              serialize
                (discovery_reply b (parse bytes).seqnum (pos b.http_port) (pos b.throttle_limit)));
        } in
        let same_reply =
          ap (λ z. discovery_reply b z (pos b.http_port) (pos b.throttle_limit))
            (ap (λ (m : BroadcastMessage P.Float). m.seqnum) message ∙ ap pos n) in
        let (s2, run, v2, same_round, i) =
          reads-offer P serialize parse b ((s.frontend_sequence + 1) % 65535) path uri prefix served
            under before after arrival s1 v1 h h'
            (ap parse (received-of_Fits _ (subst Fits (sym (ap serialize same_reply)) fits'))
              ∙ parsed _
              ∙ same_reply) in
        let s3 = next P (finished P r' s2) in
        (
          s3,
          round-steps takes r r' now b p before reactor later after s s1 s2 s3 _ _ _
              (handle_deadline_timer-next P r sending s v) answer run
              (handle_deadline_timer-next P r' sending s2 v2),
          listed-Finds laws s3 r'' request uri _
              (next-IsSound P (finished P r' s2) (finished-IsSound P r' s2 v2))
              (finished-Mem P serialize parse r' s2 uri _ (ap pos (sym (same_round ∙ n))) i),
        )
