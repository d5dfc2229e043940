-- ===== src/Tests/Rounds.antt =====
-- Rounds of discovery between a frontend and a backend.
use smartmet_engine_sputnik.Engine.Silence.{silent_rounds-clean, silent_rounds-keep, silent_rounds}
use smartmet_engine_sputnik.Services.Answers.{Answers}
use smartmet_engine_sputnik.Prelude.{
  ℕ, ◌≡◌, refl, inl, inr, true, false, [], ◌++◌, none, some, map, keep, pos, arith,
}
use smartmet_engine_sputnik.Text.{Str, codes}
use smartmet_engine_sputnik.Outcome.{ok, Returns}
use smartmet_engine_sputnik.Services.Provided.{provided}
use smartmet_engine_sputnik.Services.{Services, get_service, latest_sequence, is_latest}
use smartmet_engine_sputnik.Messages.{BroadcastMessage, process_request, process_reply}
use smartmet_engine_sputnik.Messages.Discovery.{
  announcer, offered, host_server, announced, process_reply-provided, discovery-round,
}
use smartmet_engine_sputnik.Pause.{Pause, is_paused}
use smartmet_engine_sputnik.Engine.Cycle.{
  asking, reached, handle_deadline_timer-next, IsSound, handle_deadline_timer-round,
  handle_deadline_timer-IsSound, next, finished, request_sent,
}
use smartmet_engine_sputnik.Engine.Handlers.{handle_backend_read-silent}
use smartmet_engine_sputnik.Engine.Reach.{Reach, here, deadline, Reach-get_service}
use smartmet_engine_sputnik.Engine.{
  sends_all, Frontend, success, handle_deadline_timer, handle_backend_read,
}
use smartmet_engine_sputnik.Tests.Data.{
  plain, plain-IsRandom, calm, request, wms_uri, two_services, waiting, waiting-IsSound,
  backend_state, host_info, reply_message, request_message, parse_reply, parse_request,
}

process_reply-provided_example :
    (s' : Services plain) × (process_reply plain false calm 7 reply_message (two_services, 0)
      ≡ ok (s', 1))
    × ((key : Str)
        → provided plain s' key
          ≡ provided plain two_services key
            ++ announced reply_message
                (announcer reply_message host_info 2)
                key
                reply_message.services)
process_reply-provided_example =
    process_reply-provided plain calm 7 reply_message host_info 2 0 two_services (refl, refl, refl)
      refl

discovery-round_example :
    (reply : BroadcastMessage ℕ) × (s' : Services plain) × (process_request
        (record { at_start = false; later = false })
        backend_state
        request_message
      ≡ ok (some reply))
    × (process_reply plain false calm 7 reply (two_services, 0) ≡ ok (s', 1))
    × ((key : Str)
        → provided plain (latest_sequence plain calm (pos 3) s') key
          ≡ keep (is_latest (pos 3)) (provided plain two_services key)
            ++ announced reply
                (host_server plain backend_state)
                key
                (map offered backend_state.uri_map))
    × (reply.name ≡ codes "a")
    × (reply.seqnum ≡ pos 3)
discovery-round_example =
    discovery-round plain calm calm 7 0 backend_state request_message two_services (omega arith)
      (omega arith) refl refl refl

silent_rounds-keep_example :
    silent_rounds plain sends_all 2 calm waiting
    ≡ ok (record waiting { skipped_cycles = 2; frontend_sequence = 4 })
silent_rounds-keep_example =
    silent_rounds-keep plain sends_all 2 calm waiting waiting-IsSound refl (omega arith)

silent_rounds-clean_example :
    silent_rounds plain sends_all 3 calm waiting
    ≡ ok (record waiting {
      services = latest_sequence plain calm (pos 4) two_services;
      skipped_cycles = 0;
      frontend_sequence = 5;
    })
silent_rounds-clean_example =
    silent_rounds-clean plain sends_all 2 calm waiting waiting-IsSound refl refl

handle_deadline_timer-round_example :
    handle_deadline_timer plain success calm false sends_all waiting
    ≡ ok (
      record (finished plain calm waiting) { frontend_sequence = 3 },
      some (
        asking plain false (codes "front") 3,
        reached plain (λ end. true) waiting.backend_udp_listeners,
      ),
    )
handle_deadline_timer-round_example =
    handle_deadline_timer-round plain calm sends_all waiting waiting-IsSound

handle_deadline_timer-IsSound_example :
    Returns
      (handle_deadline_timer plain success calm false sends_all waiting)
      (λ (s', sent). IsSound plain s')
handle_deadline_timer-IsSound_example =
    handle_deadline_timer-IsSound plain success calm false sends_all waiting waiting-IsSound

abbrev paused : Pause
paused = record { paused = true; deadline = none }

handle_backend_read-silent_example :
    Returns
      (handle_backend_read plain parse_request success [] false false
        (record { at_start = false; later = false })
        false
        7
        backend_state
        paused)
      (λ a. a.reply ≡ none)
unfolding is_paused
handle_backend_read-silent_example =
    handle_backend_read-silent plain parse_request success [] false false false
      (record { at_start = false; later = false }) 7 backend_state paused
      (inr (inr (inr (inr (inl refl)))))

abbrev later : Frontend plain
later = next plain (finished plain calm waiting)

later-Reach : Reach plain parse_reply waiting later
later-Reach = Reach.further here (
    deadline success calm false sends_all (some (request_sent plain sends_all later))
      (handle_deadline_timer-next plain calm sends_all waiting waiting-IsSound))

Reach-get_service_example :
    Returns (get_service plain calm request later.services) (Answers plain later.services wms_uri)
Reach-get_service_example =
    Reach-get_service plain parse_reply plain-IsRandom waiting later calm request waiting-IsSound
      later-Reach
