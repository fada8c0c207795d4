-- ===== src/Ticketing.antt =====
-- The ticketing module (apps/api/src/modules/ticketing).
pub mod Db
pub mod Automation
pub mod Assignment
pub mod Overdue
pub mod Values
pub mod Directory
pub mod Fields
pub mod Sla
pub mod Tickets
pub mod Merge
pub mod Links
pub mod Timers
pub mod Intake
pub mod Tests
