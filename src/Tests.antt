-- ===== src/Tests.antt =====
-- Concrete inputs for the theorems.
pub mod Samples
pub mod RegistryTests
pub mod SupervisorTests
pub mod SchedulerTests
pub mod UtilityTests
mod TerminalTests
mod StreamTests
mod BusTests
mod TextTests
mod CompacterTests
mod SessionTests
mod ContextTests
mod ExecutionerTests
mod ConversationTests
