-- ===== src/Executioner.antt =====
-- execution/: the executioner.
pub mod Sha256
pub mod CacheKey
pub mod Json
pub mod Manifest
pub mod Params
pub mod Adapters
pub mod PrepareRunner
pub mod Config
pub mod Leading
pub mod Packages
pub mod Environment
pub mod Requests
pub mod Serving
pub mod Coalescer
