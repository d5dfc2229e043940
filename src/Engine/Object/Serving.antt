-- ===== src/Engine/Object/Serving.antt =====
-- A launched backend answers every request that it may answer.
use smartmet_engine_sputnik.Prelude.{
  ℕ, ◌≡◌, refl, ap, map, ltb, inl, inr, Bool, true, false, ◌&&◌, not, List, [], ◌∷◌, none, some,
  if◌then◌else◌, Bool-cases, pos, arith,
}
use smartmet_engine_sputnik.Text.{Str}
use smartmet_engine_sputnik.Platform.{Platform}
use smartmet_engine_sputnik.Outcome.{ok, ◌>>=◌}
use smartmet_engine_sputnik.Pause.{Pause, is_paused, set_pause, set_pause_until, set_continue}
use smartmet_engine_sputnik.Messages.{
  process_request, cast_int, BroadcastMessage, MessageType, service_discovery_request,
  service_discovery_reply, service_discovery_beacon, discovery_reply, reply_query, reply_service,
}
use smartmet_engine_sputnik.Messages.Discovery.{offered}
use smartmet_engine_sputnik.Engine.Handlers.{IsPortable}
use smartmet_engine_sputnik.Engine.{
  backend, Status, success, operation_aborted, failed, Launching, handle_backend_read,
}
use smartmet_engine_sputnik.Engine.Object.{
  Engine, HostState, Reading, state_of, Occasion, datagram, paused, paused_until, continued, serve,
  receive, launch_engine, start_listening,
}

map-offered : (xs : List (Str × Bool)) → map reply_service xs ≡ map offered xs
unfolding reply_service
map-offered [] = refl
map-offered (x ∷ xs) = ap (◌∷◌ (offered x)) (map-offered xs)

module _ (P : Platform) (parse : Str → BroadcastMessage P.Float) where
  -- Is the message a request?
  abbrev pub is_request : MessageType → Bool
  is_request service_discovery_request = true
  is_request service_discovery_reply = false
  is_request service_discovery_beacon = false

  abbrev pub is_success : Status → Bool
  is_success success = true
  is_success operation_aborted = false
  is_success failed = false

  -- What is answered to the request: who the backend is by its settings, with the number of the
  -- request, and what was read for this reply.
  abbrev pub reply_to : HostState → Reading P.Float → Str → BroadcastMessage P.Float
  reply_to own reading bytes = record {
    name = own.hostname;
    message_type = service_discovery_reply;
    seqnum = (parse bytes).seqnum;
    host = some (record {
      ip = own.http_address;
      port = pos own.http_port;
      comment = own.comment;
      load = reading.load;
      throttle = some (pos own.throttle_limit);
    });
    services = map offered reading.uri_map;
    info_queries =
        map (λ name. record { name = name; last_update = pos 0 }) reading.admin_request_names;
  }

  -- Does the pause last at this time? One with a deadline ends when the time has come.
  abbrev pub lasts : ℕ → Pause → Bool
  lasts now p = p.paused && elim p.deadline [ none ↦ true | some time ↦ ltb now time ]

  abbrev pub no_pause : Pause
  no_pause = record { paused = false; deadline = none }

  -- What is left of the pause at this time.
  abbrev pub left_at : ℕ → Pause → Pause
  left_at now p = if p.paused && not (lasts now p) then no_pause else p

  is_paused-lasts : (now : ℕ) (p : Pause) → is_paused now p ≡ (lasts now p, left_at now p)
  unfolding is_paused
  is_paused-lasts now p = ground arith

  -- The replies that are due, one to each request that is received while no pause lasts and the load
  -- is not high, in their order.
  abbrev pub due : List (Occasion P) → HostState → Pause → List (BroadcastMessage P.Float)
  due [] own p = []
  due (datagram status bytes now high reading ∷ later) own p =
      let rest = due later own (if is_success status then left_at now p else p) in
      if is_success status && not (lasts now p) && not high && is_request (parse bytes).message_type
      then reply_to own reading bytes ∷ rest
      else rest
  due (paused ∷ later) own p = due later own (record { paused = true; deadline = none })
  due (paused_until t ∷ later) own p = due later own (record { paused = true; deadline = some t })
  due (continued ∷ later) own p = due later own no_pause

  abbrev pub pause_after : List (Occasion P) → Pause → Pause
  pause_after [] p = p
  pause_after (datagram status bytes now high reading ∷ later) p =
      pause_after later (if is_success status then left_at now p else p)
  pause_after (paused ∷ later) p = pause_after later (record { paused = true; deadline = none })
  pause_after (paused_until t ∷ later) p =
      pause_after later (record { paused = true; deadline = some t })
  pause_after (continued ∷ later) p = pause_after later no_pause

  -- Port, throttle limit and each load that is read are in range.
  abbrev pub AllPortable : HostState → List (Occasion P) → Type 0
  AllPortable own [] = Unit
  AllPortable own (datagram status bytes now high reading ∷ later) =
      IsPortable P parse (state_of own reading) × AllPortable own later
  AllPortable own (paused ∷ later) = AllPortable own later
  AllPortable own (paused_until t ∷ later) = AllPortable own later
  AllPortable own (continued ∷ later) = AllPortable own later

  handle-due :
      (status : Status) (bytes : Str) (high : Bool) (now : ℕ) (own : HostState)
      (reading : Reading P.Float) (p : Pause)
      → IsPortable P parse (state_of own reading)
      → handle_backend_read P parse status bytes false false
          (record { at_start = false; later = false })
          high
          now
          (state_of own reading)
          p
        ≡ ok (record {
          pause = if is_success status then left_at now p else p;
          reply =
              if is_success status
                && not (lasts now p)
                && not high
                && is_request (parse bytes).message_type
              then some (reply_to own reading bytes)
              else none;
          listening = true;
        })
  unfolding handle_backend_read process_request cast_int state_of discovery_reply reply_query
  handle-due operation_aborted bytes high now own reading p q = refl
  handle-due failed bytes high now own reading p q = refl
  handle-due success bytes high now own reading p q =
      let same : map reply_service reading.uri_map ≡ map offered reading.uri_map =
        map-offered reading.uri_map in
      rw (is_paused-lasts now p) (ground (arith, same))

  -- The engine while it waits for a datagram.
  abbrev pub waiting : Engine P → Pause → Engine P
  waiting e p = record e { pause = p; receiving = true; running = true }

  serve-due :
      (occasions : List (Occasion P)) (e : Engine P) (p : Pause)
      → AllPortable e.own occasions
      → serve P parse occasions (waiting e p)
        ≡ ok (waiting e (pause_after occasions p), due occasions e.own p)
  unfolding serve receive set_pause set_pause_until set_continue
  serve-due [] e p q = refl
  serve-due (datagram status bytes now high reading ∷ later) e p q =
      let p' = if is_success status then left_at now p else p in
      rw (handle-due status bytes high now e.own reading p q.0) (
        rw (serve-due later e p' q.1)
          (elim (Bool-cases (
            is_success status
            && not (lasts now p)
            && not high
            && is_request (parse bytes).message_type)) [ inl y ↦ rw y refl | inr n ↦ rw n refl ]))
  serve-due (paused ∷ later) e p q = serve-due later e _ q
  serve-due (paused_until t ∷ later) e p q = serve-due later e _ q
  serve-due (continued ∷ later) e p q = serve-due later e _ q

  -- Let an engine be launched as a backend whose socket can be bound, let its port and throttle limit
  -- fit an `int`, and each load that it reads for a reply a `float`. As long as the server does not
  -- shut down it goes on listening: whatever datagrams and failed receives come, with whatever calls
  -- that pause it, with a deadline or without, or let it continue between them, no handler throws, a
  -- receive is started in the end, and it has sent one reply to each request that came while no
  -- pause lasted and the load was not high, in their order. A reply has the number of its request,
  -- the members of the engine, and the load, URIs and names of admin requests of its own time.
  pub launch_engine-serve :
      (env : Launching P) (mode : Str) (factor : P.Float) (cookie address : Str) (e : Engine P)
      (occasions : List (Occasion P))
      → env.bound ≡ true
      → AllPortable e.own occasions
      → (launch_engine P backend env mode factor cookie address e >>= λ (e', sent).
          serve P parse occasions e')
        ≡ ok (
          record e {
            mode = backend;
            has_reactor = true;
            pause = pause_after occasions e.pause;
            receiving = true;
            running = true;
          },
          due occasions e.own e.pause,
        )
  unfolding launch_engine start_listening
  launch_engine-serve env mode factor cookie address e occasions bound q =
      rw bound (serve-due occasions (record e { mode = backend; has_reactor = true }) e.pause q)
