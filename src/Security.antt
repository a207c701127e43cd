-- ===== src/Security.antt =====
-- Account security of services/auth-service: the lock of an account and the code that opens it.
pub mod Tables
pub mod Repository
pub mod Service
pub mod Calls
pub mod Locking
pub mod Waiting
pub mod Codes
pub mod Opening
pub mod Once
pub mod Phones
mod Tests
