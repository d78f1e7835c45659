-- ===== src/Metadata.antt =====
-- src/metadata.rs, in the modules below: keys and entries, validation, the backoff of failed
-- refreshes, and the index of a provider.
pub mod Types
pub mod Validate
pub mod Backoff
pub mod Locks
pub mod Index
pub mod Packages
pub mod Versions
pub mod Lookup
pub mod Listing
pub mod Files
pub mod Discover
mod Examples
mod FileExamples
mod LockExamples
mod ListingExamples
pub mod VersionExamples
