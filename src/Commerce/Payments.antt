-- ===== src/Commerce/Payments.antt =====
-- Payments: payment.service.ts and payment.repository.ts.
pub mod Refunding
pub mod Sales
pub mod Webhook
pub mod Frame
pub mod Finality
pub mod Redelivery
pub mod SoldOnce
pub mod Intents
pub mod Reused
pub mod Opening
pub mod Opened
