-- ===== src/Hal.antt =====
-- src/hal: the registry of modules (`ModuleRegistry`).
pub mod ModuleRegistry
mod Tests
