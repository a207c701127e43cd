-- ===== src/Market.antt =====
-- The marketplace of services/features-service: buy requests on features, their locked funds, and
-- the hand-over of a feature to its buyer.
pub mod Constants
pub mod Tables
pub mod Repository
pub mod Underpriced
pub mod Requests
pub mod Atomic
pub mod Refunds
pub mod Acceptance
pub mod Closing
pub mod Competing
pub mod Offers
pub mod Settlement
pub mod Purchase
pub mod Sale
pub mod Selling
pub mod Buying
pub mod Payout
pub mod GracePeriod
mod Tests
mod BuyingTests
