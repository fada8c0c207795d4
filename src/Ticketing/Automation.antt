-- ===== src/Ticketing/Automation.antt =====
-- Automation rules: automation/apply-action.ts, the engine of automation/automation-rules.service.ts
-- and automation/time-automation-sweep.service.ts.
pub mod Engine
pub mod Rules
pub mod Timed
pub mod Effects
pub mod Keeps
pub mod Resolved
pub mod Audit
pub mod Runs
