-- ===== src/Supervisor.antt =====
-- core/supervisor.cpp: SupervisorService, the authority over the lives of processes and trees.
pub mod Status
pub mod Messages
pub mod State
pub mod Validation
pub mod Registering
pub mod Handlers
pub mod Round
pub mod RoundRule
pub mod Upkeep
pub mod Lockout
pub mod TreeKill
pub mod Silence
pub mod Sessions
