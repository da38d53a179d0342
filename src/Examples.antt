-- ===== src/Examples.antt =====
-- Concrete stores and requests, and the theorems at them.
mod Fixtures
mod Payments
mod Orders
mod Requests
mod Rest
mod Members
mod Runs
mod Checkouts
mod Quotes
mod Carts
mod Queues
mod Prices
mod Placements
mod Intents
