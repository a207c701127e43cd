-- ===== src/Payment.antt =====
-- The payments of services/commercial-service: orders, the callback of the payment gateway, the bonus
-- of a first order and the commission of a referrer.
pub mod Tables
pub mod Repository
pub mod Referral
pub mod Service
pub mod Commission
pub mod Credits
pub mod Balances
pub mod Bonus
pub mod Once
pub mod Failure
mod Tests
