-- ===== src/Tests/Paths.antt =====
-- Sequences of events at a frontend that starts.
use smartmet_engine_sputnik.Engine.Punctual.Paths.{Reach-IsForwarded, AllPunctual, Punctual}
use smartmet_engine_sputnik.Prelude.{◌≡◌, refl, true, false, [], arith}
use smartmet_engine_sputnik.Text.{split_at}
use smartmet_engine_sputnik.Outcome.{ok, Returns}
use smartmet_engine_sputnik.Services.Validity.{initial-IsValid}
use smartmet_engine_sputnik.Services.Punctual.{IsForwarded}
use smartmet_engine_sputnik.Services.{Services, initial, get_service}
use smartmet_engine_sputnik.Messages.{
  server_of, add_services, add_requests, process_reply, accept_reply, cast_unsigned,
}
use smartmet_engine_sputnik.Engine.Cycle.{IsSound}
use smartmet_engine_sputnik.Engine.Reach.{Reach, here, read}
use smartmet_engine_sputnik.Engine.{Frontend, success, endpoints, handle_frontend_read}
use smartmet_engine_sputnik.Tests.Data.{
  plain, plain-IsRandom, calm, request, waiting, host_info, reply_message, parse_reply,
}

-- A frontend in its third round that has heard nothing so far.
abbrev pub fresh : Frontend plain
fresh = record waiting { services = initial plain; frontend_sequence = 3 }

pub fresh-IsSound : IsSound plain fresh
unfolding endpoints split_at
fresh-IsSound = record {
  sequence_range = omega arith;
  destinations = refl;
  skipped_range = omega arith;
  max_range = omega arith;
  valid = initial-IsValid plain;
}

abbrev heard_services : Services plain
heard_services =
    add_requests plain (server_of reply_message host_info 2) reply_message.seqnum
      reply_message.info_queries
      (add_services plain calm 7 reply_message host_info 2 reply_message.services (initial plain))

-- It has read one reply.
abbrev heard : Frontend plain
heard = record fresh { services = heard_services; received_responses = 1 }

heard-read : handle_frontend_read plain parse_reply success [] false calm 7 fresh ≡ ok (heard, true)
unfolding handle_frontend_read process_reply accept_reply cast_unsigned
heard-read = refl

abbrev fresh_path : Reach plain parse_reply fresh heard
fresh_path = Reach.further here (read success [] false calm 7 true heard-read)

Reach-IsForwarded_example :
    Returns
      (get_service plain calm request heard.services)
      (λ (answer, services). IsForwarded plain calm request heard.services answer)
unfolding AllPunctual Punctual initial
Reach-IsForwarded_example =
    Reach-IsForwarded plain parse_reply plain-IsRandom fresh heard calm request fresh-IsSound refl
      (omega arith) fresh_path (tt, refl)
