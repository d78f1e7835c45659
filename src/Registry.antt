-- ===== src/Registry.antt =====
-- src/registry.rs, in the modules below: the types of the registry's answers and its errors, the
-- bounded reading of a body, and the client with its cache of discovered origins.
pub mod Types
pub mod Decode
pub mod Client
mod Examples
