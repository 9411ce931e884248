-- ===== src/Registry.antt =====
-- core/process_registry.hpp and core/process_registry.cpp.
pub mod State
pub mod Trees
pub mod Processes
pub mod Ending
pub mod Queries
pub mod Invariant
pub mod Steps
pub mod Registration
pub mod Retirement
pub mod TreeLife
pub mod Completion
