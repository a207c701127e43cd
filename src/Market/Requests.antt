-- ===== src/Market/Requests.antt =====
-- Buy requests (marketplace_service.go): a buyer offers a price and pays it in advance, and the
-- seller accepts or rejects the offer, or the buyer withdraws it.
mod Payments
mod Lifecycle
mod Send
unfoldable pub use Payments.*
unfoldable pub use Lifecycle.*
unfoldable pub use Send.*
