-- ===== src/Server.antt =====
-- src/main.rs, in the modules below: the redirect to HTTPS, the wait for the first bytes of a
-- connection, the listeners with their connections, and the start of the server.
pub mod Redirect
pub mod Preface
pub mod Listener
pub mod Site
pub mod Start
mod Examples
