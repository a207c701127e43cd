-- ===== src/Dynasty.antt =====
-- Dynasties and their families (services/dynasty-service): join requests, the rules for them, the
-- founding of a dynasty and the prizes.
pub mod Tables
pub mod Repository
pub mod Policy
pub mod Validation
pub mod Requests
pub mod Enhanced
pub mod Houses
pub mod Statuses
pub mod Sending
pub mod Machine
pub mod Decisions
pub mod Joining
pub mod Membership
pub mod Founding
pub mod Rejoining
pub mod Progress
pub mod Permissions
pub mod Grants
mod Tests
