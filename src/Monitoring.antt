-- ===== src/Monitoring.antt =====
-- The monitoring module (apps/api/src/modules/monitoring).
pub mod Metrics
pub mod Alerting
pub mod Lifecycle
pub mod Escalation
pub mod Agents
pub mod Tests
