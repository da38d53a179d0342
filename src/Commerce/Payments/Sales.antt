-- ===== src/Commerce/Payments/Sales.antt =====
-- recordOrderSale of src/modules/system/analytics-rollup.service.ts: one transaction, claimed once.
use all_in_one_v2_api.Base.{
  ℕ, ◌==◌, Bool, not, ◌&&◌, Option, none, some, map, if◌then◌else◌, update_many,
}
use all_in_one_v2_api.Analytics.{Line, Rollups, fold_order}
use all_in_one_v2_api.Commerce.Store.{Order, OrderItem, Store}
use all_in_one_v2_api.Commerce.Orders.Rows.{find_order}

abbrev pub line_of : OrderItem → Line
line_of i = record {
  product_id = i.product_id;
  category_id = i.category_id;
  quantity = i.quantity;
  unit_price = i.unit_price;
}

-- `where: { id: orderId, tenantId, analyticsRecordedAt: null }`
abbrev pub is_unclaimed : ℕ → ℕ → ℕ → Order → Bool
is_unclaimed tenant id i o = i == id && o.tenant_id == tenant && not o.analytics_recorded

abbrev pub claim_order : Order → Order
claim_order o = record o { analytics_recorded = Bool.true }

abbrev pub rollup_order : ℕ → Order → Store → Store
rollup_order tenant o s =
    let folded : Rollups =
      fold_order (map line_of o.items) o.customer_id o.created_day o.total_amount
        (s.analytics tenant) in
    record s { analytics = λ t. if t == tenant then folded else s.analytics t }

-- a claim that updates no row does no work
abbrev pub record_unclaimed : ℕ → ℕ → Option Order → Store → Store
record_unclaimed tenant id none s = s
record_unclaimed tenant id (some o) s =
    if o.analytics_recorded
    then s
    else rollup_order tenant o
        (record s { orders = update_many (is_unclaimed tenant id) claim_order s.orders })

-- recordOrderSale
unfoldable pub record_order_sale : ℕ → ℕ → Store → Store
unfolding find_order
record_order_sale tenant id s = record_unclaimed tenant id (find_order tenant id s) s
