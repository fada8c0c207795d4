-- ===== src/Events.antt =====
-- The event bus and the notifications that it carries (apps/api/src/event-bus,
-- apps/api/src/notifications).
pub mod Bus
pub mod Notifications
pub mod Tests
