-- ===== src/Wallet.antt =====
-- The wallets of services/commercial-service: the tables, the repository, the service with its
-- gRPC handler, and the client through which services/features-service calls it.
pub mod Row
pub mod Repository
pub mod Service
pub mod Client
pub mod Columns
pub mod Balance
pub mod Locks
pub mod Solvency
pub mod Placeholder
pub mod Calls
pub mod Tests
