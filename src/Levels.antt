-- ===== src/Levels.antt =====
-- services/levels-service: the score of a user, the levels that it reaches and their prizes.
pub mod Tables
pub mod Scores
pub mod Awards
pub mod Single
pub mod Reaching
mod Tests
