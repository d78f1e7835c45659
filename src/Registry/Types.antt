-- ===== src/Registry/Types.antt =====
-- src/registry.rs: `RegistryError`, `RegistryVersion`, `RegistryPlatform`.
use open_tf_mirror.Base.{ℕ, List, Str}
use open_tf_mirror.Outbound.Client.{OutboundError}

-- `request` stands for the errors of `reqwest`; texts of messages are left out.
pub data RegistryError : Type 0 where
  not_found invalid_origin request invalid_response discovery_backoff : RegistryError
  outbound : OutboundError → RegistryError
  response_too_large : ℕ → RegistryError

pub record RegistryPlatform : Type 0 where
  pub os : Str
  pub arch : Str

pub record RegistryVersion : Type 0 where
  pub version : Str
  pub platforms : List RegistryPlatform
