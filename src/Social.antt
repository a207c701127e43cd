-- ===== src/Social.antt =====
-- services/social-service: the questions of the challenge with their prizes, and who follows whom.
pub mod Challenge
pub mod Answering
pub mod Prizes
pub mod Votes
pub mod Follows
pub mod Following
mod Tests
