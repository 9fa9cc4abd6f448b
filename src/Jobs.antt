-- ===== src/Jobs.antt =====
-- The jobs domain, backend/app/jobs: the lifecycle's words, the rows, and what changes them.
pub mod Status
pub mod Rows
pub mod App
pub mod Service
pub mod Queue
pub mod Manager
pub mod Restart
pub mod Rejections
pub mod Import
pub mod Pipeline
pub mod Run
mod Tests
