-- ===== src/Lib.antt =====
-- A model of the commerce back end `all-in-one-v2-api`, and what holds of it.
--
-- The program is an Express service over a Prisma database, shared by several stores (tenants). A
-- handler reads rows, checks them, writes rows and may throw an HTTP error. Here a handler is a function
-- from a store to a result that carries the new store (Base/Handlers): what was written before a throw
-- stays written, `try`/`catch` around a notification is `attempt`, and each table is a list of rows under
-- their ids, the newest first (Base/Tables). Transactions of the database are one step.
--
-- Files and code:
--   Analytics                 src/modules/system/analytics-rollup.service.ts
--   Commerce/Status, Store    prisma/schema/commerce.prisma: enumerations, tables, what a request runs in
--   Commerce/Orders           src/modules/commerce/order.service.ts and order.repository.ts
--   Commerce/Payments         src/modules/commerce/payment.service.ts and payment.repository.ts,
--                             src/utils/webhook-identity.ts
--   Commerce/Returns          src/modules/commerce/return.service.ts, return.repository.ts and
--                             return-status.util.ts
--   Commerce/Fulfilment       src/modules/commerce/cj-order-fulfillment.service.ts and the placement of
--                             order.repository.ts
--   Commerce/Coupons          src/modules/commerce/coupon.service.ts and coupon.repository.ts
--   Commerce/Checkout         the checkout and the shipping quotes of order.service.ts, the carts of
--                             src/modules/commerce/cart.service.ts, and the candidates and counts of
--                             src/modules/promotion/promotion.repository.ts
--   Promotion                 src/modules/promotion/promotion.engine.ts
--   Inventory                 src/modules/inventory/inventory.repository.ts
--   Suppliers                 src/consumers/supplier-refund.consumer.ts and the marks that
--                             order.repository.ts keeps for it
--   Catalog                   the pricing rules: src/utils/pricing.util.ts and, in src/modules/catalog,
--                             pricing-rule.service.ts and pricing-rule.repository.ts
--   Queues                    src/infrastructure/sqs/consumer.ts, src/modules/system/job.service.ts and
--                             src/consumers/product-sync.consumer.ts
--   Pagination                src/helpers/pagination.helper.ts
--   Tenants                   src/modules/tenant/membership.service.ts and membership.repository.ts
--   Tenants/Permissions       src/modules/auth/permissions.ts, src/middleware/auth.middleware.ts
--   Examples                  the theorems at concrete stores and requests
--
-- Functions and fields have the source's names in snake case: `handleWebhook` is `handle_webhook`. The
-- branches of a long method are helpers beside it. Orders, payments, refunds and requests live in one
-- `Store`: a webhook of the payment gateway moves the payment, the order, the sales rollups, the refund
-- and the request behind it, in the order of the source's calls.
--
-- Ids are natural numbers, drawn from a counter in place of the database's uuids. Amounts are natural
-- numbers of ten-thousandths of the currency unit, the scale of the columns; discounts of the promotion
-- engine and unrounded prices are numbers of 10^-10, where a percentage of an amount is exact: what the
-- source computes with floating-point numbers is exact here. The amounts of a placed order are rounded to
-- the scale of their columns, each by itself. The loops of the source run over lists; only the deliveries
-- of a queued message run on fuel, one more than the receives that the queue allows: it hands a
-- message out no more often. Texts of notifications and log lines are left out.
--
-- Parameters: the tenant of the request, the notifier, the queue and the cache (up or down), the
-- catalogue that a checkout reads, the calls of Stripe, the calls to the supplier CJ (with the way a
-- JavaScript Set tells the included rows apart), the supplier registry and its adapters, what SQS does
-- with a deletion and when it hands a message out again, where a worker dies and which database writes to
-- a job go through, whether the transaction after a placement with CJ commits, and the rows that a query
-- of another module returned.
--
-- Not modelled: the rest of the catalogue and its import, authentication, storefront content, the
-- HTTP clients of suppliers, routes, configuration and the polling loop of the consumer. Concurrency is
-- modelled in two places: the reads and versioned writes of a stock row interleave
-- (Inventory/Interleaved), and so do the repository and supplier calls of several refund workers, with
-- the writes for other refunds (Suppliers/Overlap). Suppliers/Once and all other handlers run one request or delivery after another.
pub mod Base
pub mod Analytics
pub mod Commerce
pub mod Promotion
pub mod Inventory
pub mod Suppliers
pub mod Tenants
pub mod Pagination
pub mod Catalog
pub mod Queues
mod Examples
