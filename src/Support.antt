-- ===== src/Support.antt =====
-- services/support-service: the tickets of the users.
pub mod Tickets
mod Standing
pub mod Closed
mod Tests
