-- ===== src/Commerce.antt =====
-- Orders, payments and returns: src/modules/commerce.
pub mod Status
pub mod Store
pub mod Orders
pub mod Payments
pub mod Returns
pub mod Fulfilment
pub mod Coupons
pub mod Checkout
