-- ===== src/Engine/Settings.antt =====
-- The constructor of sputnik/Engine.cpp with the defaults of its settings. What the configuration
-- file and the reactor say are parameters.
pub mod Page
pub mod Limits
pub mod Launched
use smartmet_engine_sputnik.Prelude.{
  ℕ, ◌-◌, ◌%◌, ◌^◌, Bool, true, false, ◌&&◌, List, [], ◌∷◌, ◌++◌, Option, none, some, if◌then◌else◌,
  ℤ, pos, as_unsigned,
}
use smartmet_engine_sputnik.Text.{Str, codes, to_string}
use smartmet_engine_sputnik.Platform.{Platform}
use smartmet_engine_sputnik.Outcome.{
  Result, ok, err, not_opened, bad_file, no_reactor, bad_setting, bad_address, option_failed,
}
use smartmet_engine_sputnik.Pause.{Pause}
use smartmet_engine_sputnik.Services.{Services, initial}
use smartmet_engine_sputnik.Services.Reports
use smartmet_engine_sputnik.Engine.Object.{Engine, HostState}
use smartmet_engine_sputnik.Engine.{Frontend, BroadcastMode, backend, frontend, unknown}

-- What `Spine::ConfigBase` finds under a name, and what `get_config_array` puts into an empty
-- vector; `err` is the exception for a setting of the wrong type.
pub record ConfigBase (F : Type 0) : Type 0 where
  pub string_param : Str → Result (Option Str)
  pub int_param : Str → Result (Option ℤ)
  pub bool_param : Str → Result (Option Bool)
  pub float_param : Str → Result (Option F)
  pub config_array : Str → Result (List Str)

-- Has the setting the right type, if there is one?
abbrev pub is_read : {A : Type 0} → Result A → Bool
is_read (ok a) = true
is_read (err e) = false

abbrev pub items : Result (List Str) → List Str
items (ok sts) = sts
items (err e) = []

-- `get_optional_config_param` of a setting that has the right type, if there is one
unfoldable pub or_default : {A : Type 0} → Result (Option A) → A → A
or_default (ok none) default = default
or_default (ok (some v)) default = v
or_default (err e) default = default

-- Whether the constructor can read all its settings, in its order. The first that it cannot read
-- ends it by an exception.
unfoldable pub reads_all : {F : Type 0} → ConfigBase F → Bool
reads_all conf =
    is_read (conf.config_array (codes "backendUdpListeners"))
    && is_read (conf.string_param (codes "frontendUdpAddress"))
    && is_read (conf.int_param (codes "frontendUdpPort"))
    && is_read (conf.string_param (codes "forwarding"))
    && is_read (conf.float_param (codes "balance_factor"))
    && is_read (conf.string_param (codes "sticky_cookie"))
    && is_read (conf.int_param (codes "heartbeat.interval"))
    && is_read (conf.int_param (codes "heartbeat.timeout"))
    && is_read (conf.int_param (codes "heartbeat.max_skipped_cycles"))
    && is_read (conf.bool_param (codes "pause"))
    && is_read (conf.string_param (codes "hostname"))
    && is_read (conf.string_param (codes "httpAddress"))
    && is_read (conf.string_param (codes "udpListenerAddress"))
    && is_read (conf.int_param (codes "udpListenerPort"))
    && is_read (conf.string_param (codes "comment"))
    && is_read (conf.int_param (codes "throttle"))

-- The members that the constructor sets.
pub record Settings (P : Platform) : Type 0 where
  pub http_port : ℕ
  pub backend_udp_listeners : List Str
  pub frontend_udp_address : Str
  pub frontend_udp_port : ℕ
  pub forwarding_mode : Str
  pub balance_factor : P.Float
  pub sticky_cookie : Str
  pub heart_beat_interval : ℕ
  pub heart_beat_timeout : ℕ
  pub max_skipped_cycles : ℕ
  pub hostname : Str
  pub http_address : Str
  pub udp_listener_address : Str
  pub udp_listener_port : ℕ
  pub comment : Str
  pub throttle_limit : ℕ

module _ (P : Platform) where
  unfoldable pub settings_of : ConfigBase P.Float → ℕ → Settings P
  unfolding or_default
  settings_of conf port = record {
    http_port = port;
    backend_udp_listeners = items (conf.config_array (codes "backendUdpListeners"));
    frontend_udp_address =
        or_default (conf.string_param (codes "frontendUdpAddress")) (codes "0.0.0.0");
    frontend_udp_port =
        as_unsigned 16 (or_default (conf.int_param (codes "frontendUdpPort")) (pos 0));
    forwarding_mode = or_default (conf.string_param (codes "forwarding")) (codes "random");
    balance_factor = or_default (conf.float_param (codes "balance_factor")) P.two_f;
    sticky_cookie =
        or_default (conf.string_param (codes "sticky_cookie")) (codes "smartmet-session-id");
    heart_beat_interval =
        as_unsigned 32 (or_default (conf.int_param (codes "heartbeat.interval")) (pos 5));
    heart_beat_timeout =
        as_unsigned 32 (or_default (conf.int_param (codes "heartbeat.timeout")) (pos 2));
    max_skipped_cycles =
        as_unsigned 32 (or_default (conf.int_param (codes "heartbeat.max_skipped_cycles")) (pos 2));
    hostname = or_default (conf.string_param (codes "hostname")) (codes "localhost");
    http_address = or_default (conf.string_param (codes "httpAddress")) (codes "127.0.0.1");
    udp_listener_address =
        or_default (conf.string_param (codes "udpListenerAddress")) (codes "127.0.0.1");
    udp_listener_port =
        as_unsigned 16 (or_default (conf.int_param (codes "udpListenerPort")) (pos 31337));
    comment =
        or_default (conf.string_param (codes "comment"))
          (codes "No comments associated with this server");
    throttle_limit = as_unsigned 32 (or_default (conf.int_param (codes "throttle")) (pos 0));
  }

  -- What the constructor meets: whether the socket is opened, the file if it can be read, the port of
  -- the reactor if there is one, and whether the address can be reused.
  pub record Surroundings : Type 0 where
    pub opened : Bool
    pub file : Option (ConfigBase P.Float)
    pub reactor_port : Option ℕ
    pub reuse_set : Bool

  -- The constructor behind the check for a reactor.
  unfoldable pub configure : ConfigBase P.Float → ℕ → Bool → Result (Settings P × Pause)
  unfolding settings_of or_default reads_all
  configure conf port reuse_set =
      let settings = settings_of conf port in
      if reads_all conf
      then if P.is_address settings.udp_listener_address
        then if reuse_set
          then ok (
            settings,
            record { paused = or_default (conf.bool_param (codes "pause")) false; deadline = none },
          )
          else err option_failed
        else err bad_address
      else err bad_setting

  -- The constructor: the settings, and whether Sputnik starts paused.
  unfoldable pub construct : Surroundings → Result (Settings P × Pause)
  unfolding configure
  construct around =
      if around.opened
      then elim around.file [
        | none ↦ err bad_file
        | some conf ↦ elim around.reactor_port [
          | none ↦ err no_reactor
          | some port ↦ configure conf port around.reuse_set
        ]
      ]
      else err not_opened

  -- The members of a new engine that the discovery cycle works on.
  unfoldable pub frontend_of : Settings P → Frontend P
  unfolding initial
  frontend_of c = record {
    services = initial P;
    frontend_sequence = 0;
    received_responses = 0;
    skipped_cycles = 0;
    max_skipped_cycles = c.max_skipped_cycles;
    hostname = c.hostname;
    backend_udp_listeners = c.backend_udp_listeners;
  }

  -- The members that a reply carries.
  unfoldable pub own_of : Settings P → HostState
  own_of c = record {
    hostname = c.hostname;
    http_address = c.http_address;
    http_port = c.http_port;
    comment = c.comment;
    throttle_limit = c.throttle_limit;
  }

  -- A new engine.
  unfoldable pub engine_of : Settings P → Pause → Engine P
  unfolding frontend_of own_of
  engine_of c pause = record {
    mode = unknown;
    has_reactor = false;
    members = frontend_of c;
    own = own_of c;
    pause = pause;
    receiving = false;
    running = false;
  }
