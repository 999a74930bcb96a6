-- ===== src/Tests.antt =====
-- The theorems at concrete inputs, over a database in memory.
pub mod Memory
pub mod Core
pub mod Runs
pub mod HlsJobs
pub mod Messages
pub mod Stores
pub mod Videos
pub mod Settings
pub mod Services
pub mod Web
pub mod Process
