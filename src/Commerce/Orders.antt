-- ===== src/Commerce/Orders.antt =====
-- Orders: src/modules/commerce/order.repository.ts and order.service.ts.
pub mod Rows
pub mod Service
pub mod Cancelling
pub mod Rejecting
pub mod Declined
