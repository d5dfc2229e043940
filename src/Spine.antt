-- ===== src/Spine.antt =====
-- What the engine reads of two objects of the SmartMet server, which are not in the repository:
-- the Reactor and an HTTP request.
use smartmet_engine_sputnik.Prelude.{ℤ, Option}
use smartmet_engine_sputnik.Text.{Str}

-- `getBackendRequestStatus()[host][port]`, which is 0 for a backend that is not listed: the number
-- of requests that the backend is answering.
pub record Reactor : Type 0 where
  pub request_status : Str → ℤ → ℤ

pub record Request : Type 0 where
  pub resource : Str
  pub client_ip : Str
  pub header : Str → Option Str
