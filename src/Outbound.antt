-- ===== src/Outbound.antt =====
-- src/outbound.rs, in the modules below: which addresses are public, and the client that follows
-- redirects under the policy.
pub mod Address
pub mod Client
mod Examples
