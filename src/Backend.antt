-- ===== src/Backend.antt =====
-- sputnik/BackendServer.h, BackendService.h, BackendInfo.h and BackendInfoRequest.h. The objects
-- are built once and only read afterwards (no caller uses the two setters of BackendService), so
-- the shared pointers to them are the values.
use smartmet_engine_sputnik.Prelude.{ℕ, Bool, ℤ}
use smartmet_engine_sputnik.Text.{Str}

-- `F` is the type of floating-point values.
pub record BackendServer (F : Type 0) : Type 0 where
  pub name : Str
  pub ip : Str
  pub port : ℤ
  pub comment : Str
  pub load : F
  pub throttle : ℕ

pub record BackendService (F : Type 0) : Type 0 where
  pub backend : BackendServer F
  pub uri : Str
  pub last_update : ℤ
  pub allow_cache : Bool
  pub sequence_number : ℤ
  pub defines_prefix : Bool

pub record BackendInfo (F : Type 0) : Type 0 where
  pub host_name : Str
  pub port : ℤ
  pub load : F
  pub throttle_counter : ℕ

pub record BackendInfoRequest (F : Type 0) : Type 0 where
  pub backend : BackendServer F
  pub name : Str
  pub last_update : ℤ
  pub sequence_number : ℤ
