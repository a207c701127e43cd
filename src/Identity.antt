-- ===== src/Identity.antt =====
-- The validation of the identity data of a user: shared/pkg/helpers.
pub mod Rules
pub mod Checks
mod Tests
