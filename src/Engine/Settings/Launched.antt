-- ===== src/Engine/Settings/Launched.antt =====
-- From the configuration file to the first request of a frontend.
use smartmet_engine_sputnik.Prelude.{
  ℕ, ◌^◌, ◌<◌, ◌≡◌, refl, ap, ◌∙◌, true, false, List, [], none, some, pos,
}
use smartmet_engine_sputnik.Text.{Str, codes, str_eq}
use smartmet_engine_sputnik.OrderedMap.{find}
use smartmet_engine_sputnik.Platform.{Platform}
use smartmet_engine_sputnik.Outcome.{bind-ok, ok, Returns, ◌>>=◌}
use smartmet_engine_sputnik.Pause.{Pause}
use smartmet_engine_sputnik.Forwarder.{
  ForwardingMode, random, inverse_load, inverse_connections, least_connections, double_random,
  exponential_connections, sticky,
}
use smartmet_engine_sputnik.Services.{parse_mode, set_forwarding, initial}
use smartmet_engine_sputnik.Services.Validity.{initial-IsValid}
use smartmet_engine_sputnik.Services.Provided.{provided}
use smartmet_engine_sputnik.Engine.Cycle.{
  asking, reached, request_sent-asking, next-IsSound, next, request_sent, IsSound,
  start_service_discovery-next,
}
use smartmet_engine_sputnik.Engine.{
  Endpoint, Launching, frontend, endpoints, Frontend, sends_all, frontend_mode, launch,
}
use smartmet_engine_sputnik.Engine.Object.{launch_engine}
use smartmet_engine_sputnik.Engine.Settings.{
  Settings, or_default, ConfigBase, Surroundings, items, reads_all, settings_of, configure,
  construct, frontend_of, engine_of,
}
use smartmet_engine_sputnik.Engine.Settings.Limits.{configured_cycles, frontend_of-IsSound}

module _ (P : Platform) where
  -- What lets the constructor return: every setting is of its type, the address of the listener is
  -- one, and nothing outside fails.
  abbrev pub usual : ConfigBase P.Float → ℕ → Surroundings P
  usual conf port = record {
    opened = true;
    file = some conf;
    reactor_port = some port;
    reuse_set = true;
  }

  -- The pause with which an engine starts.
  abbrev pub starting_pause : ConfigBase P.Float → Pause
  starting_pause conf = record {
    paused = or_default (conf.bool_param (codes "pause")) false;
    deadline = none;
  }

  construct-settings :
      (conf : ConfigBase P.Float) (port : ℕ)
      → reads_all conf ≡ true
      → P.is_address (settings_of P conf port).udp_listener_address ≡ true
      → construct P (usual conf port) ≡ ok (settings_of P conf port, starting_pause conf)
  unfolding construct configure
  construct-settings conf port read address = rw (read, address) refl

  -- A frontend that has been launched, before its first round.
  abbrev forwarding : Settings P → ForwardingMode → Frontend P
  forwarding c mode = record (frontend_of P c) {
    services = record (initial P) {
      fwd_mode = mode;
      balancing_coefficient = c.balance_factor;
      cookie_name = c.sticky_cookie;
    };
  }

  abbrev pub free : Launching P
  free = record { option_set = true; bound = true; hook_added = true; sending = sends_all }

  -- The name of a forwarding mode in the configuration.
  abbrev pub mode_name : ForwardingMode → Str
  mode_name random = codes "random"
  mode_name inverse_load = codes "inverseload"
  mode_name inverse_connections = codes "inverseconnections"
  mode_name least_connections = codes "leastconnections"
  mode_name double_random = codes "doublerandom"
  mode_name exponential_connections = codes "exponentialconnections"
  mode_name sticky = codes "sticky"

  parse_mode-mode_name : (mode : ForwardingMode) → parse_mode P (mode_name mode) ≡ ok mode
  unfolding parse_mode str_eq
  parse_mode-mode_name random = refl
  parse_mode-mode_name inverse_load = refl
  parse_mode-mode_name inverse_connections = refl
  parse_mode-mode_name least_connections = refl
  parse_mode-mode_name double_random = refl
  parse_mode-mode_name exponential_connections = refl
  parse_mode-mode_name sticky = refl

  frontend_mode-forwarding :
      (c : Settings P) (mode : ForwardingMode)
      → parse_mode P c.forwarding_mode ≡ ok mode
      → P.is_address c.frontend_udp_address ≡ true
      → IsSound P (forwarding c mode)
      → frontend_mode P free c.forwarding_mode c.balance_factor c.sticky_cookie
          c.frontend_udp_address
          (frontend_of P c)
        ≡ ok (next P (forwarding c mode), request_sent P sends_all (next P (forwarding c mode)))
  unfolding frontend_mode set_forwarding frontend_of
  frontend_mode-forwarding c mode e known v =
      rw (e, known) (start_service_discovery-next P sends_all (forwarding c mode) v.destinations)

  forwarding-IsSound :
      (c : Settings P) (mode : ForwardingMode)
      → IsSound P (frontend_of P c)
      → IsSound P (forwarding c mode)
  forwarding-IsSound c mode v =
      let w = initial-IsValid P in
      record {
        sequence_range = v.sequence_range;
        skipped_range = v.skipped_range;
        max_range = v.max_range;
        destinations = v.destinations;
        valid = record {
          uris = w.uris;
          synced = w.synced;
          prefixes = w.prefixes;
          hosts = w.hosts;
          queries = w.queries;
        };
      }

  -- An engine is constructed, and launched as a frontend by a server on which no call fails. Let all
  -- settings be of their types, the addresses of the UDP listener and of the frontend be ones, the
  -- forwarding mode be the name of one, the limit of skipped cycles be from 0 to 2^31 - 1 or not configured, and each
  -- listener name a port. Then neither call throws. The frontend is sound, lists no service, makes
  -- its forwarders in the configured mode, listens, and has sent the request of round 1, under its
  -- configured host name, to the listeners, up to the first whose address is bad.
  pub frontend-Starts :
      (conf : ConfigBase P.Float) (port n : ℕ) (mode : ForwardingMode) (ends : List Endpoint)
      → reads_all conf ≡ true
      → P.is_address (settings_of P conf port).udp_listener_address ≡ true
      → P.is_address (or_default (conf.string_param (codes "frontendUdpAddress")) (codes "0.0.0.0"))
        ≡ true
      → or_default (conf.string_param (codes "forwarding")) (codes "random") ≡ mode_name mode
      → configured_cycles P conf ≡ pos n
      → n < 2 ^ 31
      → endpoints P (λ end. true) (items (conf.config_array (codes "backendUdpListeners")))
        ≡ ok ends
      → Returns
          (construct P (usual conf port) >>= λ (c, pause).
            launch_engine P frontend free c.forwarding_mode c.balance_factor c.sticky_cookie
              c.frontend_udp_address
              (engine_of P c pause))
          (λ (e, sent).
            IsSound P e.members
            × ((key : Str) → provided P e.members.services key ≡ [])
            × (e.members.services.fwd_mode ≡ mode)
            × (e.receiving ≡ true)
            × (sent
                ≡ some (
                  asking P false
                      (or_default (conf.string_param (codes "hostname")) (codes "localhost"))
                      1,
                  reached P (λ end. true) (items (conf.config_array (codes "backendUdpListeners"))),
                )))
  unfolding launch_engine launch engine_of frontend_of settings_of initial find
  frontend-Starts conf port n mode ends read address bound known cycles small named =
      let c = settings_of P conf port in
      let sound =
        forwarding-IsSound c mode (frontend_of-IsSound P conf port n cycles small named) in
      let s = forwarding c mode in
      (
        (
          record (engine_of P c (starting_pause conf)) {
            mode = frontend;
            has_reactor = true;
            members = next P s;
            receiving = true;
            running = true;
          },
          some (request_sent P sends_all (next P s)),
        ),
        bind-ok _ (construct-settings conf port read address)
            ∙ rw
                (frontend_mode-forwarding c mode
                  (ap (parse_mode P) known ∙ parse_mode-mode_name mode) bound sound)
                refl,
        (
          next-IsSound P s sound,
          λ key. refl,
          refl,
          refl,
          ap some (request_sent-asking P sends_all (next P s) sound.destinations),
        ),
      )
