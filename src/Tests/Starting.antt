-- ===== src/Tests/Starting.antt =====
-- New engines with settings that count.
use smartmet_engine_sputnik.Engine.Silence.{silent_rounds}
use smartmet_engine_sputnik.Prelude.{
  ℕ, ◌+◌, ◌%◌, ◌^◌, ◌≡◌, refl, List, true, false, [], ◌∷◌, none, some, pos, negsuc, arith,
}
use smartmet_engine_sputnik.Text.{Str, str_eq, codes, to_string, digits}
use smartmet_engine_sputnik.Outcome.{Returns, ok, err, ◌>>=◌, positive_overflow}
use smartmet_engine_sputnik.Messages.{send_discovery_reply}
use smartmet_engine_sputnik.Engine.{
  sends_all, Frontend, endpoints, Launching, frontend, backend, unknown, success, failed,
}
use smartmet_engine_sputnik.Engine.Object.{
  state_of, Reading, Engine, Occasion, datagram, paused, continued, serve, launch_engine,
}
use smartmet_engine_sputnik.Engine.Object.Serving.{reply_to, pause_after, due, launch_engine-serve}
use smartmet_engine_sputnik.Engine.Cycle.{IsSound, asking, reached}
use smartmet_engine_sputnik.Engine.Settings.{
  ConfigBase, construct, engine_of, reads_all, or_default, settings_of, own_of,
}
use smartmet_engine_sputnik.Engine.Settings.Page.{uri}
use smartmet_engine_sputnik.Engine.Settings.Limits.{silent_rounds-never, reply-negative_throttle}
use smartmet_engine_sputnik.Engine.Settings.Launched.{usual, frontend-Starts}
use smartmet_engine_sputnik.Engine.Settings.Launched
use smartmet_engine_sputnik.Forwarder.{random}
use smartmet_engine_sputnik.Services.{parse_mode}
use smartmet_engine_sputnik.Services.Provided.{provided}
use smartmet_engine_sputnik.Tests.Data.{
  plain, calm, waiting, waiting-IsSound, parse_request, wms_uri,
}

abbrev no_settings : ConfigBase ℕ
no_settings = record {
  string_param = λ name. ok none;
  int_param = λ name. ok none;
  bool_param = λ name. ok none;
  float_param = λ name. ok none;
  config_array = λ name. ok [];
}

-- Every `int` is set to -1.
abbrev all_negative : ConfigBase ℕ
all_negative = record no_settings { int_param = λ name. ok (some (negsuc 0)) }

uri_runs : uri plain (settings_of plain no_settings 8080) ≡ codes "http://127.0.0.1:8080"
unfolding uri settings_of or_default to_string digits
uri_runs = refl

frontend-Starts_example :
    Returns
      (construct plain (usual plain no_settings 8080) >>= λ (c, pause).
        launch_engine plain frontend
          (Launched.free plain)
          c.forwarding_mode
          c.balance_factor
          c.sticky_cookie
          c.frontend_udp_address
          (engine_of plain c pause))
      (λ (e, sent).
        IsSound plain e.members
        × ((key : Str) → provided plain e.members.services key ≡ [])
        × (e.members.services.fwd_mode ≡ random)
        × (e.receiving ≡ true)
        × (sent
            ≡ some (
              asking plain false
                  (or_default (no_settings.string_param (codes "hostname")) (codes "localhost"))
                  1,
              reached plain (λ end. true) [],
            )))
unfolding or_default endpoints reads_all settings_of parse_mode str_eq
frontend-Starts_example =
    frontend-Starts plain no_settings 8080 2 random [] refl refl refl refl refl (omega arith) refl

abbrev unlimited : Frontend plain
unlimited = record waiting { max_skipped_cycles = 4294967295 }

silent_rounds-never_example :
    silent_rounds plain sends_all 100000 calm unlimited
    ≡ ok (record unlimited {
      skipped_cycles = (0 + 100000) % 2 ^ 32;
      frontend_sequence = (2 + 100000) % 65535;
    })
silent_rounds-never_example =
    silent_rounds-never plain sends_all 100000 calm unlimited refl (omega arith) (omega arith) refl
      waiting-IsSound.destinations

abbrev serving : Reading ℕ
serving = record {
  load = 1;
  load_fits = true;
  uri_map = (wms_uri, true) ∷ [];
  admin_request_names = [];
}

reply-negative_throttle_example :
    send_discovery_reply
      (record { at_start = false; later = false })
      (state_of (own_of plain (settings_of plain all_negative 8080)) serving)
      (pos 4)
    ≡ err positive_overflow
unfolding or_default
reply-negative_throttle_example =
    reply-negative_throttle plain all_negative 8080 0 false serving (pos 4) refl (omega arith)

-- A backend that is paused after its first reply, and continues later, with another load.
abbrev idle : Engine plain
idle = record {
  mode = unknown;
  has_reactor = false;
  members = waiting;
  own = record {
    hostname = codes "a";
    http_address = codes "10.1.0.1";
    http_port = 8080;
    comment = [];
    throttle_limit = 2;
  };
  pause = record { paused = false; deadline = none };
  receiving = false;
  running = false;
}

abbrev free : Launching plain
free = record { option_set = true; bound = true; hook_added = true; sending = sends_all }

abbrev occasions : List (Occasion plain)
occasions =
    datagram success [] 7 false serving
    ∷ datagram failed [] 8 false serving
    ∷ paused
    ∷ datagram success [] 9 false serving
    ∷ continued
    ∷ datagram success [] 10 false (record serving { load = 3 })
    ∷ []

launch_engine-serve_example :
    (launch_engine plain backend free (codes "random") 2 [] [] idle >>= λ (e', sent).
    serve plain parse_request occasions e')
    ≡ ok (
      record idle {
        mode = backend;
        has_reactor = true;
        pause = pause_after plain parse_request occasions idle.pause;
        receiving = true;
        running = true;
      },
      due plain parse_request occasions idle.own idle.pause,
    )
unfolding state_of
launch_engine-serve_example =
    launch_engine-serve plain parse_request free (codes "random") 2 [] [] idle occasions refl (
      (omega arith, omega arith, refl),
      (
        (omega arith, omega arith, refl),
        ((omega arith, omega arith, refl), ((omega arith, omega arith, refl), tt)),
      ),
    )

-- Two replies are due.
due_runs :
    due plain parse_request occasions idle.own idle.pause
    ≡ reply_to plain parse_request idle.own serving []
      ∷ reply_to plain parse_request idle.own (record serving { load = 3 }) []
      ∷ []
due_runs = refl
