-- ===== src/Detection.antt =====
-- backend/app/services/detection: findings, the set of detectors, and the run over a window.
pub mod Types
pub mod Registry
pub mod Engine
pub mod Grouping
pub mod Signals
pub mod Floats
pub mod BruteForce
