-- ===== src/Policy.antt =====
-- pkg/policy: rules that allow, deny or change a recommendation.
pub mod Values
pub mod Types
pub mod Engine
mod Tests
