-- ===== src/Commerce/Returns.antt =====
-- Refund, replacement and return requests.
pub mod Transitions
pub mod Rows
pub mod Requests
pub mod Disputes
pub mod Refunds
pub mod Lifecycle
pub mod Audit
pub mod QuietSteps
pub mod DisputeTrails
pub mod Workflow
pub mod Money
pub mod Refunded
