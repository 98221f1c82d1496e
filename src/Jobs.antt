-- ===== src/Jobs.antt =====
-- cpkit/jobs: the durable queue, its worker and the job history.
pub mod Types
pub mod Repository
pub mod Service
pub mod Recurring
pub mod Dispatch
pub mod History
pub mod Worker
pub mod Handlers
mod Examples
