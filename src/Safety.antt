-- ===== src/Safety.antt =====
-- pkg/safety: what is asked before a workload is changed.
pub mod CircuitBreaker
pub mod Pdb
pub mod Hpa
pub mod Oom
