-- ===== src/Engine.antt =====
-- sputnik/Engine.h and Engine.cpp: the discovery cycle of a frontend and the answers of a backend.
-- The handlers run one at a time on the thread of the io_context, so a call is one step. What
-- Protocol Buffers does with the bytes of a datagram is the parameter `parse`.
pub mod Settings
pub mod Object
pub mod Cycle
pub mod Silence
pub mod Handlers
pub mod Reach
pub mod Punctual
use smartmet_engine_sputnik.Prelude.{
  ℕ, ◌+◌, ◌%◌, ◌^◌, Bool, true, false, ◌&&◌, ◌||◌, List, [], ◌∷◌, ◌++◌, Option, none, some,
  if◌then◌else◌, ltb, leb, ◌==◌, ℤ, pos, as_unsigned,
}
use smartmet_engine_sputnik.Text.{Str, codes, split_at}
use smartmet_engine_sputnik.Platform.{Platform}
use smartmet_engine_sputnik.Spine.{Reactor}
use smartmet_engine_sputnik.Outcome.{
  Result, ok, err, positive_overflow, bind_failed, option_failed, hook_refused, bad_port,
  bad_address, ◌>>=◌,
}
use smartmet_engine_sputnik.Services.{
  Services, latest_sequence, set_forwarding, query_backend_alive,
}
use smartmet_engine_sputnik.Services
use smartmet_engine_sputnik.Messages.{
  BroadcastMessage, BackendState, Shutdown, cast_int, send_discovery_request, process_request,
  process_reply,
}
use smartmet_engine_sputnik.Pause.{Pause, is_paused}

-- The members that the discovery cycle works on; the counters are `unsigned int`.
pub record Frontend (P : Platform) : Type 0 where
  pub services : Services P
  pub frontend_sequence : ℕ
  pub received_responses : ℕ
  pub skipped_cycles : ℕ
  pub max_skipped_cycles : ℕ
  pub hostname : Str
  pub backend_udp_listeners : List Str

-- Address and port of a listener.
abbrev pub Endpoint : Type 0
Endpoint = Str × ℕ

-- What a call of `startServiceDiscovery` meets: whether the server is shutting down, and whether the
-- socket sends to an address.
pub record Sending : Type 0 where
  pub shutting_down : Bool
  pub takes : Endpoint → Bool

-- No shutdown, and no failure to send.
abbrev pub sends_all : Sending
sends_all = record { shutting_down = false; takes = λ end. true }

-- How a read or a wait ended.
pub data Status : Type 0 where
  success operation_aborted failed : Status

pub data BroadcastMode : Type 0 where
  backend frontend unknown : BroadcastMode

-- `StreamerStatus`, as far as the code tells its values apart
pub data StreamerStatus : Type 0 where
  exit_ok other : StreamerStatus

module _ (P : Platform) where
  open P use {Float}

  -- The loop over the listeners, as where it sends to. One with no colon is passed over; a bad
  -- address ends the loop, and so does a failure of `send_to`, by an exception that is caught and
  -- logged; a bad port ends the call.
  unfoldable pub endpoints : (Endpoint → Bool) → List Str → Result (List Endpoint)
  endpoints takes [] = ok []
  endpoints takes (st ∷ sts) =
      let rest = endpoints takes sts in
      elim (split_at b':' st) [
        | none ↦ rest
        | some (addr, port) ↦
            if P.is_address addr
            then elim (P.stoi port) [
              | none ↦ err bad_port
              | some n ↦
                  if takes (addr, as_unsigned 16 n)
                  then (rest >>= λ ends. ok ((addr, as_unsigned 16 n) ∷ ends))
                  else ok []
            ]
            else ok []
      ]

  -- What a step of the frontend sends: the request, and where to.
  abbrev pub Sent : Type 0
  Sent = Option (BroadcastMessage Float) × List Endpoint

  -- `startServiceDiscovery`. An empty buffer is sent as it is.
  unfoldable pub start_service_discovery : Sending → Frontend P → Result (Frontend P × Sent)
  unfolding endpoints cast_int send_discovery_request
  start_service_discovery sending s =
      let sequence = (s.frontend_sequence + 1) % 65535 in
      cast_int sequence >>= λ seqnum. endpoints sending.takes s.backend_udp_listeners >>= λ ends.
      ok (
        record s { frontend_sequence = sequence },
        (send_discovery_request Float sending.shutting_down s.hostname seqnum, ends),
      )

  -- `itsServices.latestSequence(boost::numeric_cast<int>(itsFrontendSequence))`
  unfoldable pub clean_services : Reactor → Frontend P → Result (Frontend P)
  unfolding cast_int
  clean_services r s = cast_int s.frontend_sequence >>= λ seqnum.
      ok (record s { services = latest_sequence P r seqnum s.services })

  -- The list is cleaned, and both counters are reset.
  unfoldable pub clean_and_reset : Reactor → Frontend P → Result (Frontend P)
  unfolding clean_services
  clean_and_reset r s =
      clean_services r s >>= λ s'. ok (record s' { skipped_cycles = 0; received_responses = 0 })

  -- The part of `handleDeadlineTimer` up to the sleep.
  unfoldable pub finish_cycle : Reactor → Frontend P → Result (Frontend P)
  unfolding clean_and_reset
  finish_cycle r s =
      let skipped = (s.skipped_cycles + 1) % 2 ^ 32 in
      if ltb 0 s.received_responses
      then clean_and_reset r s
      else if ltb s.max_skipped_cycles skipped
      then clean_and_reset r s
      else ok (record s { skipped_cycles = skipped; received_responses = 0 })

  -- `handleDeadlineTimer`. The flag is what `isShuttingDown` says after the sleep.
  unfoldable pub handle_deadline_timer :
      Status → Reactor → Bool → Sending → Frontend P → Result (Frontend P × Option Sent)
  unfolding finish_cycle start_service_discovery
  handle_deadline_timer operation_aborted r stop sending s = ok (s, none)
  handle_deadline_timer success r stop sending s = finish_cycle r s >>= λ s'.
      if stop
      then ok (s', none)
      else start_service_discovery sending s' >>= λ (s'', sent). ok (s'', some sent)
  handle_deadline_timer failed r stop sending s = finish_cycle r s >>= λ s'.
      if stop
      then ok (s', none)
      else start_service_discovery sending s' >>= λ (s'', sent). ok (s'', some sent)

  -- `handleFrontendRead`; the flag of the result says that the next receive has been started.
  unfoldable pub handle_frontend_read :
      (Str → BroadcastMessage Float)
      → Status
      → Str
      → Bool
      → Reactor
      → ℕ
      → Frontend P
      → Result (Frontend P × Bool)
  unfolding process_reply
  handle_frontend_read parse operation_aborted bytes stop r now s = ok (s, false)
  handle_frontend_read parse failed bytes stop r now s = ok (s, true)
  handle_frontend_read parse success bytes stop r now s =
      process_reply P stop r now (parse bytes) (s.services, s.received_responses)
      >>= λ (services, received).
          ok (record s { services = services; received_responses = received }, true)

  -- What a backend's handler leaves: its pause, the reply that is sent, and whether it listens on.
  pub record Answer : Type 0 where
    pub pause : Pause
    pub reply : Option (BroadcastMessage Float)
    pub listening : Bool

  abbrev pub silent : Pause → Bool → Answer
  silent p listening = record { pause = p; reply = none; listening = listening }

  -- The branch of `handleBackendRead` that answers.
  unfoldable pub answer_request :
      (Str → BroadcastMessage Float)
      → Str
      → Bool
      → Shutdown
      → BackendState Float
      → Pause
      → Result Answer
  unfolding process_request
  answer_request parse bytes stop shutdown b p =
      if stop
      then ok (silent p false)
      else process_request shutdown b (parse bytes) >>= λ reply.
          ok (record { pause = p; reply = reply; listening = true })

  -- `handleBackendRead`. `stop` and `stop'` are what its two tests of `isShuttingDown` see, `high`
  -- is `isLoadHigh`; a failed receive shows in `status`.
  unfoldable pub handle_backend_read :
      (Str → BroadcastMessage Float)
      → Status
      → Str
      → Bool
      → Bool
      → Shutdown
      → Bool
      → ℕ
      → BackendState Float
      → Pause
      → Result Answer
  unfolding answer_request
  handle_backend_read parse operation_aborted bytes stop stop' shutdown high now b p =
      ok (silent p (if stop then false else true))
  handle_backend_read parse failed bytes stop stop' shutdown high now b p =
      ok (silent p (if stop then false else true))
  handle_backend_read parse success bytes stop stop' shutdown high now b p =
      if stop
      then ok (silent p false)
      else if (is_paused now p).0
      then ok (silent (is_paused now p).1 true)
      else if high
      then ok (silent (is_paused now p).1 true)
      else answer_request parse bytes stop' shutdown b (is_paused now p).1

  -- `Engine::setBackendAlive`: the hook for a finished connection. The query is for the log only.
  unfoldable pub set_backend_alive : Str → ℤ → StreamerStatus → Services P → Services P
  set_backend_alive host port exit_ok s = Services.set_backend_alive P host port s
  set_backend_alive host port other s = s

  -- What the socket and the reactor answer to the calls of `launch`.
  pub record Launching : Type 0 where
    pub option_set : Bool
    pub bound : Bool
    pub hook_added : Bool
    pub sending : Sending

  -- `frontendMode`, with the configured mode, factor, cookie and address of the frontend; the address
  -- is read after the option is set, and a bad one throws.
  unfoldable pub frontend_mode :
      Launching → Str → Float → Str → Str → Frontend P → Result (Frontend P × Sent)
  unfolding start_service_discovery
  frontend_mode env mode factor cookie address s =
      set_forwarding P mode factor cookie s.services >>= λ services.
      if env.option_set
      then if P.is_address address
        then if env.bound
          then start_service_discovery env.sending (record s { services = services })
          else err bind_failed
        else err bad_address
      else err option_failed

  -- `launch`: what is sent, in the mode that sends.
  unfoldable pub launch :
      BroadcastMode
      → Launching
      → Str
      → Float
      → Str
      → Str
      → Frontend P
      → Result (Frontend P × Option Sent)
  unfolding frontend_mode
  launch backend env mode factor cookie address s =
      if env.bound then ok (s, none) else err bind_failed
  launch frontend env mode factor cookie address s =
      frontend_mode env mode factor cookie address s >>= λ (s', sent).
      if env.hook_added then ok (s', some sent) else err hook_refused
  launch unknown env mode factor cookie address s = ok (s, none)
