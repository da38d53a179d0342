-- ===== src/Commerce/Checkout.antt =====
-- Checkout: the carts, the price of an order, the stock it reserves and the order it creates.
pub mod Shop
pub mod Candidates
pub mod Pricing
pub mod Reserving
pub mod Placing
pub mod Outcome
pub mod Effect
pub mod Limits
pub mod Shelves
pub mod Leftover
pub mod Carts
pub mod AddItem
pub mod OneItem
pub mod Quoting
pub mod Quoted
pub mod Visits
