-- ===== src/Catalog.antt =====
-- The pricing rules of the catalogue, and the prices that follow from them.
pub mod Prices
pub mod Floor
pub mod Rules
pub mod Editing
pub mod Defaults
pub mod Requests
pub mod Swap
