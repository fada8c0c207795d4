-- ===== src/Cost.antt =====
-- Cost management (apps/api/src/modules/cost).
pub mod Pace
pub mod Tests
