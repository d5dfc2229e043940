-- ===== src/Tests/Clusters.antt =====
-- A frontend and a backend.
use smartmet_engine_sputnik.Cluster.Round.Swept.{hearing_round, responses}
use mathlib.Core.List.{Memᴰ}
use smartmet_engine_sputnik.Prelude.{
  ℕ, ◌≢◌, ◌+◌, ◌%◌, ◌≡◌, ◌⊎◌, refl, sym, ◌∙◌, ap, inl, true, false, [], ◌∷◌, none, some, pos, arith,
}
use smartmet_engine_sputnik.Text.{Str, codes, str_eq}
use smartmet_engine_sputnik.Text.Order.{str_eq_iff}
use smartmet_engine_sputnik.Outcome.{◌>>=◌, ok, Returns}
use smartmet_engine_sputnik.Pause.{Pause, is_paused}
use smartmet_engine_sputnik.PrefixMap.{translate}
use smartmet_engine_sputnik.Backend.{BackendService}
use smartmet_engine_sputnik.Services.{Services, initial, get_service}
use smartmet_engine_sputnik.Messages.{
  send_discovery_request, BroadcastMessage, BackendState, discovery_reply, server_of, add_services,
  add_requests, process_reply, accept_reply, cast_unsigned,
}
use smartmet_engine_sputnik.Engine.Handlers.{handle_backend_read-reply}
use smartmet_engine_sputnik.Engine.Reach.{read}
use smartmet_engine_sputnik.Engine.{sends_all, Frontend, Answer, success, handle_frontend_read}
use smartmet_engine_sputnik.Cluster.{
  Fits, received-of_Fits, Cluster, Event, at_frontend, at_backend, begin, then, IsDelivered,
  sent_by, sent_back,
}
use smartmet_engine_sputnik.Cluster.Genuine.{IsOffered, host_of}
use smartmet_engine_sputnik.Cluster.Safety.{get_service-IsOffered}
use smartmet_engine_sputnik.Cluster.Round.{Arrival, round}
use smartmet_engine_sputnik.Cluster.Round.Reading.{IsHarmless}
use smartmet_engine_sputnik.Cluster.Round.Delivery.{offer}
use smartmet_engine_sputnik.Cluster.Round.Found.{Finds, round-Finds}
use smartmet_engine_sputnik.Services.Listed.{Lists}
use smartmet_engine_sputnik.Services.Punctual.{
  ArePunctual, ArePunctual-next, add_service-ArePunctual,
}
use smartmet_engine_sputnik.Engine.Punctual.{IsOrderly}
use smartmet_engine_sputnik.Cluster.Round.Forgotten.{hearing_round-late, hearing_round-Forgets}
use smartmet_engine_sputnik.Services.Provided.{provided}
use smartmet_engine_sputnik.Tests.Wire.{write_message, read_message, read_message-write_message}
use smartmet_engine_sputnik.Tests.Paths.{fresh, fresh-IsSound}
use smartmet_engine_sputnik.Tests.Data.{
  one_service, server_a, server_b, wms_on, plain, plain-IsRandom, calm, request, wms_uri, waiting,
  waiting-IsSound, backend_state, reply_message, request_message,
}

abbrev running : Pause
running = record { paused = false; deadline = none }

abbrev other_reply : Arrival
other_reply = record { reactor = calm; now = 8; bytes = write_message reply_message }

other_reply-IsHarmless :
    IsHarmless plain write_message read_message (read_message other_reply.bytes)
other_reply-IsHarmless = rw (read_message-write_message reply_message) (2, refl)

round-Finds_example :
    Returns
      (round plain write_message read_message sends_all.takes calm calm 7 backend_state running
        (other_reply ∷ [])
        (calm, 9)
        []
        waiting)
      (λ s'. Finds plain write_message read_message s' calm request wms_uri (
        offer plain write_message read_message backend_state
          (pos ((waiting.frontend_sequence + 1) % 65535))
          wms_uri
          true))
unfolding is_paused write_message send_discovery_request discovery_reply
round-Finds_example =
    round-Finds plain write_message read_message plain-IsRandom read_message-write_message
      sends_all.takes calm calm calm calm 7 9 backend_state running (other_reply ∷ []) [] waiting
      request wms_uri wms_uri true waiting-IsSound (other_reply-IsHarmless, tt) tt
      (omega arith, omega arith, refl) refl (Memᴰ.head refl) (inl refl) (omega arith) (omega arith)

-- The only backend.
abbrev IsMember : BackendState ℕ → Type 0
IsMember b = b ≡ backend_state

abbrev asked_bytes : Str
asked_bytes = write_message request_message

abbrev start : Cluster plain
start = record { frontend = fresh; requests = asked_bytes ∷ []; replies = [] }

abbrev reply : BroadcastMessage ℕ
reply =
    discovery_reply backend_state (read_message asked_bytes).seqnum (pos backend_state.http_port)
      (pos backend_state.throttle_limit)

abbrev answer : Answer plain
answer = record { pause = (is_paused 7 running).1; reply = some reply; listening = true }

abbrev replied : Cluster plain
replied = record start { replies = sent_back plain write_message read_message answer }

asked-Fits : Fits asked_bytes
unfolding write_message
asked-Fits = omega arith

start-answer : Event plain write_message read_message IsMember start replied
unfolding is_paused
start-answer =
    at_backend backend_state asked_bytes false false (record { at_start = false; later = false })
      false 7 running answer refl (Memᴰ.head refl)
      (rw (received-of_Fits asked_bytes asked-Fits) (
        handle_backend_read-reply plain read_message asked_bytes 7 backend_state running
          (omega arith, omega arith, refl) refl
          (ap (λ (m : BroadcastMessage ℕ). m.message_type)
            (read_message-write_message request_message))))

abbrev reply_bytes : Str
reply_bytes = write_message reply

reply-Fits : Fits reply_bytes
unfolding write_message discovery_reply
reply-Fits = omega arith

-- The services after the reply.
abbrev heard_services : Services plain
heard_services =
    add_requests plain (server_of reply (host_of backend_state) 2) reply.seqnum reply.info_queries
      (add_services plain calm 9 reply (host_of backend_state) 2 reply.services fresh.services)

abbrev heard : Frontend plain
heard = record fresh { services = heard_services; received_responses = 1 }

heard-read :
    handle_frontend_read plain read_message success reply_bytes false calm 9 fresh
    ≡ ok (heard, true)
unfolding handle_frontend_read process_reply accept_reply cast_unsigned discovery_reply
heard-read =
    ap
      (λ m.
        process_reply plain false calm 9 m (fresh.services, fresh.received_responses)
        >>= λ (services, received).
            ok (record fresh { services = services; received_responses = received }, true))
      (read_message-write_message reply)

abbrev informed : Cluster plain
informed = record replied { frontend = heard }

replied-read : Event plain write_message read_message IsMember replied informed
unfolding sent_by IsDelivered
replied-read =
    at_frontend (read success reply_bytes false calm 9 true heard-read)
      (reply_bytes, Memᴰ.head refl, sym (received-of_Fits reply_bytes reply-Fits))

get_service-IsOffered_example :
    Returns (get_service plain calm request heard.services) (λ (answer, services).
      (answer ≡ none)
      ⊎ ((b : BackendService ℕ) × (answer ≡ some b)
          × IsOffered plain read_message IsMember informed.requests
              (translate heard.services.prefix_map request.resource)
              b))
unfolding initial
get_service-IsOffered_example =
    get_service-IsOffered plain write_message read_message IsMember plain-IsRandom
      read_message-write_message start informed calm request fresh-IsSound refl refl
      (then (then begin start-answer) replied-read) (asked-Fits, tt) (reply-Fits, tt)

one_service-ArePunctual : ArePunctual plain 1 0 one_service
one_service-ArePunctual =
    add_service-ArePunctual plain 1 0 calm 5 (wms_on server_a (pos 1)) wms_uri 1 2 (initial plain)
      (omega arith) refl (unfold initial in tt)

waiting-IsOrderly : IsOrderly plain waiting
waiting-IsOrderly = record {
  sound = waiting-IsSound;
  short = omega arith;
  lists =
      add_service-ArePunctual plain 2 1 calm 5 (wms_on server_b (pos 2)) wms_uri 1 2 one_service
        (omega arith) refl
        (ArePunctual-next plain 1 0 one_service (omega arith) (omega arith)
          one_service-ArePunctual);
}

names_differ : str_eq (codes "a") (codes "b") ≡ false
unfolding str_eq
names_differ = refl

other_reply-name : (read_message other_reply.bytes).name ≢ codes "b"
other_reply-name =
    rw (read_message-write_message reply_message)
      (λ e. cc (sym ((str_eq_iff (codes "a") (codes "b")).1 e) ∙ names_differ))

other_reply-counts : responses plain write_message read_message (other_reply ∷ []) ≡ 1
other_reply-counts = rw (read_message-write_message reply_message) refl

-- Only `a` replies.
hearing_round-Forgets_example :
    Returns
      (hearing_round plain write_message read_message sends_all calm calm
        (other_reply ∷ [])
        waiting)
      (λ s'.
        Lists plain (λ key b. b.backend.name ≢ codes "b") s'.services
        × Returns (get_service plain calm request s'.services) (λ (answer, services).
          (answer ≡ none)
          ⊎ ((b : BackendService ℕ) × (answer ≡ some b) × (b.backend.name ≢ codes "b"))))
hearing_round-Forgets_example =
    hearing_round-Forgets plain write_message read_message plain-IsRandom sends_all calm calm calm
      (other_reply ∷ []) (codes "b") waiting request waiting-IsOrderly (other_reply-IsHarmless, tt)
      (other_reply-name, tt) (omega (arith, other_reply-counts)) (omega (arith, other_reply-counts))

-- A reply to the round before.
abbrev late_message : BroadcastMessage ℕ
late_message = record reply_message { seqnum = pos 2 }

abbrev late_reply : Arrival
late_reply = record { reactor = calm; now = 8; bytes = write_message late_message }

late_reply-IsHarmless : IsHarmless plain write_message read_message (read_message late_reply.bytes)
late_reply-IsHarmless = rw (read_message-write_message late_message) (2, refl)

late_reply-seqnum :
    (read_message late_reply.bytes).seqnum ≢ pos ((waiting.frontend_sequence + 1) % 65535)
late_reply-seqnum = rw (read_message-write_message late_message) (λ e. absurd (ground (arith, e)))

late_reply-counts : responses plain write_message read_message (late_reply ∷ []) ≡ 1
late_reply-counts = rw (read_message-write_message late_message) refl

hearing_round-late_example :
    Returns
      (hearing_round plain write_message read_message sends_all calm calm (late_reply ∷ []) waiting)
      (λ s'. (key : Str) → provided plain s'.services key ≡ [])
hearing_round-late_example =
    hearing_round-late plain write_message read_message sends_all calm calm (late_reply ∷ [])
      waiting waiting-IsOrderly (late_reply-IsHarmless, tt) (late_reply-seqnum, tt)
      (omega (arith, late_reply-counts)) (omega (arith, late_reply-counts))
