-- ===== src/Recommendation.antt =====
-- pkg/recommendation
pub mod Types
pub mod Confidence
pub mod Names
pub mod Values
pub mod Engine
pub mod Tests
