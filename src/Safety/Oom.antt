-- ===== src/Safety/Oom.antt =====
-- pkg/safety/oom_detector.go: which workloads were killed for want of memory.
pub mod Names
pub mod Check
pub mod History
pub mod Scan
mod Tests
