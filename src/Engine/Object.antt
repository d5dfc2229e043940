-- ===== src/Engine/Object.antt =====
-- sputnik/Engine.h and Engine.cpp: the engine as an object, with what it holds of the sockets and
-- of the thread that runs the handlers.
pub mod Serving
use smartmet_engine_sputnik.Prelude.{
  ℕ, Bool, true, false, ◌&&◌, not, List, [], ◌∷◌, ◌++◌, Option, none, some, if◌then◌else◌,
}
use smartmet_engine_sputnik.Text.{Str}
use smartmet_engine_sputnik.Platform.{Platform}
use smartmet_engine_sputnik.Outcome.{Result, ok, err, bind_failed, ◌>>=◌}
use smartmet_engine_sputnik.Pause.{Pause, set_pause, set_pause_until, set_continue}
use smartmet_engine_sputnik.Messages.{BroadcastMessage, BackendState}
use smartmet_engine_sputnik.Services.{Services}
use smartmet_engine_sputnik.Services.Reports.{Row, Table, get_info_request_backend_list}
use smartmet_engine_sputnik.Services.Reports
use smartmet_engine_sputnik.Engine.{
  Frontend, BroadcastMode, backend, frontend, unknown, Status, Launching, Sent, frontend_mode,
  launch, handle_backend_read,
}

-- The members of the engine that its replies carry.
pub record HostState : Type 0 where
  pub hostname : Str
  pub http_address : Str
  pub http_port : ℕ
  pub comment : Str
  pub throttle_limit : ℕ

-- What `sendDiscoveryReply` reads anew for each reply: the load, and from the reactor the URIs with
-- their prefix flags and the names of the admin requests.
pub record Reading (F : Type 0) : Type 0 where
  pub load : F
  pub load_fits : Bool
  pub uri_map : List (Str × Bool)
  pub admin_request_names : List Str

unfoldable pub state_of : {F : Type 0} → HostState → Reading F → BackendState F
state_of own reading = record {
  hostname = own.hostname;
  http_address = own.http_address;
  http_port = own.http_port;
  comment = own.comment;
  throttle_limit = own.throttle_limit;
  current_load = reading.load;
  load_fits = reading.load_fits;
  uri_map = reading.uri_map;
  admin_request_names = reading.admin_request_names;
}

-- `receiving`: a receive has been started and has not ended. `running`: the thread runs the io
-- service, which has not been stopped.
pub record Engine (P : Platform) : Type 0 where
  pub mode : BroadcastMode
  pub has_reactor : Bool
  pub members : Frontend P
  pub own : HostState
  pub pause : Pause
  pub receiving : Bool
  pub running : Bool

module _ (P : Platform) where
  open P use {Float}

  -- `startListening`
  unfoldable pub start_listening : Engine P → Engine P
  start_listening e = record e { receiving = true }

  -- `backendMode`; the flag says whether the socket can be bound.
  unfoldable pub backend_mode : Bool → Engine P → Result (Engine P)
  unfolding start_listening
  backend_mode bound e = if bound then ok (start_listening e) else err bind_failed

  -- `shutdown`: no handler runs after it.
  unfoldable pub shutdown : Engine P → Engine P
  shutdown e = record e { running = false }

  -- `Services::setReactor`, and the reactor of the engine itself
  unfoldable pub set_reactor : Engine P → Engine P
  set_reactor e = record e { has_reactor = true }

  unfoldable pub backends : Str → Bool → Engine P → Table
  backends service full e = Reports.backends P service full e.members.services

  unfoldable pub get_backend_list : Str → Engine P → List Row
  get_backend_list service e = Reports.get_backend_list P service e.members.services

  unfoldable pub get_info_backends : Str → Engine P → List Row
  get_info_backends name e = get_info_request_backend_list P name e.members.services

  -- What comes from outside: a receive that ends, with the time, whether the load is high, and what
  -- a reply would read then; and
  -- the calls that pause the engine and let it continue.
  pub data Occasion : Type 0 where
    datagram : Status → Str → ℕ → Bool → Reading Float → Occasion
    paused : Occasion
    paused_until : ℕ → Occasion
    continued : Occasion

  -- The message that a handler sends.
  abbrev pub reply_list : Option (BroadcastMessage Float) → List (BroadcastMessage Float)
  reply_list none = []
  reply_list (some message) = message ∷ []

  -- A receive that ends runs the handler, which may start the next one. Nothing is received while
  -- no receive is started or the thread does not run. The result is the engine and what it sends.
  unfoldable pub receive :
      (Str → BroadcastMessage Float)
      → Status
      → Str
      → ℕ
      → Bool
      → Reading Float
      → Engine P
      → Result (Engine P × List (BroadcastMessage Float))
  unfolding state_of
  receive parse status bytes now high reading e =
      if e.receiving && e.running
      then (handle_backend_read P parse status bytes false false
            (record { at_start = false; later = false }) high now (state_of e.own reading) e.pause
          >>= λ a. ok (record e { pause = a.pause; receiving = a.listening }, reply_list a.reply))
      else ok (e, [])

  -- A backend at work, and what it has sent in the end.
  unfoldable pub serve :
      (Str → BroadcastMessage Float)
      → List Occasion
      → Engine P
      → Result (Engine P × List (BroadcastMessage Float))
  unfolding receive
  serve parse [] e = ok (e, [])
  serve parse (datagram status bytes now high reading ∷ later) e =
      receive parse status bytes now high reading e >>= λ (e', sent).
      serve parse later e' >>= λ (e'', rest). ok (e'', sent ++ rest)
  serve parse (paused ∷ later) e = serve parse later (record e { pause = set_pause e.pause })
  serve parse (paused_until t ∷ later) e =
      serve parse later (record e { pause = set_pause_until t e.pause })
  serve parse (continued ∷ later) e = serve parse later (record e { pause = set_continue e.pause })

  -- `launch`: the reactor, the mode, the calls of the mode, and the thread; the request that is
  -- sent, on a frontend.
  unfoldable pub launch_engine :
      BroadcastMode
      → Launching P
      → Str
      → Float
      → Str
      → Str
      → Engine P
      → Result (Engine P × Option (Sent P))
  unfolding backend_mode set_reactor
  launch_engine backend env mode factor cookie address e =
      backend_mode env.bound (record (set_reactor e) { mode = backend }) >>= λ e'.
      ok (record e' { running = true }, none)
  launch_engine frontend env mode factor cookie address e =
      launch P frontend env mode factor cookie address e.members >>= λ (members, sent). ok (
        record (set_reactor e) {
          mode = frontend;
          members = members;
          receiving = true;
          running = true;
        },
        sent,
      )
  launch_engine unknown env mode factor cookie address e =
      ok (record (set_reactor e) { mode = unknown; running = true }, none)
