-- ===== src/Ticketing/Tickets.antt =====
-- The service of tickets (apps/api/src/modules/ticketing/tickets.service.ts).
pub mod Checks
pub mod Create
pub mod Steps
pub mod Created
pub mod Numbers
pub mod Ownership
pub mod Patch
pub mod Update
pub mod Timeline
pub mod Changed
pub mod Written
pub mod Audited
pub mod Settled
pub mod Messages
pub mod Responses
pub mod Listing
pub mod Pages
