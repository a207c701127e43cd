-- ===== src/Profit.antt =====
-- services/features-service: the hourly profits of the land features.
pub mod Tables
pub mod Service
pub mod Withdrawals
pub mod Single
mod Tests
