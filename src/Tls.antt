-- ===== src/Tls.antt =====
-- src/tls_reload.rs, in the modules below: reading DER, certificate times, the civil calendar, the
-- validity of a chain, and the resolver that reloads the certificate.
pub mod Errors
pub mod Der
pub mod Civil
pub mod Time
pub mod Validity
pub mod Resolver
mod Examples
