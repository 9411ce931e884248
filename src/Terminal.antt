-- ===== src/Terminal.antt =====
-- core/persistant_applications: the terminal registry and the job store.
pub mod Jobs
pub mod Sessions
pub mod Operations
pub mod Sentinel
pub mod Quoting
pub mod Comparison
