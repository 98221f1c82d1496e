-- ===== src/Auth.antt =====
-- cpkit/auth: who calls, by API key or by session, and what the caller may do.
pub mod Claims
pub mod Access
pub mod Sessions
pub mod ApiKeys
pub mod Callers
pub mod Config
pub mod ProviderClient
pub mod Login
pub mod KeyService
mod Examples
