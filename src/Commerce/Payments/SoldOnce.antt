-- ===== src/Commerce/Payments/SoldOnce.antt =====
-- recordOrderSale claims an order once.
use all_in_one_v2_api.Base.{
  ℕ, ◌≡◌, refl, ==_refl, false, some, arith, find, update_many, find-update_many, Option-cases,
  Bool-cases, inl, inr,
}
use all_in_one_v2_api.Commerce.Store.{Order, Store}
use all_in_one_v2_api.Commerce.Orders.Rows.{find_order, order_of_tenant}
use all_in_one_v2_api.Commerce.Payments.Sales.{is_unclaimed, claim_order, record_order_sale}

find_order-claimed :
    (tenant id : ℕ) (s : Store) (o : Order)
    → find_order tenant id s ≡ some o
    → o.analytics_recorded ≡ false
    → order_of_tenant tenant (find id (update_many (is_unclaimed tenant id) claim_order s.orders))
      ≡ some (claim_order o)
unfolding find_order
find_order-claimed tenant id s o h n =
    ground (arith, find-update_many id (is_unclaimed tenant id) claim_order s.orders, ==_refl id)

-- Recording the sale of an order a second time changes nothing: no rollup counts an order twice.
pub record_order_sale_once :
    (tenant id : ℕ) (s : Store)
    → record_order_sale tenant id (record_order_sale tenant id s) ≡ record_order_sale tenant id s
unfolding record_order_sale find_order
record_order_sale_once tenant id s = elim (Option-cases (find_order tenant id s)) [
  | inl missing ↦ rw missing (rw missing refl)
  | inr (o, known) ↦ elim (Bool-cases o.analytics_recorded) [
    | inl recorded ↦ rw known (rw recorded (rw known (rw recorded refl)))
    | inr fresh ↦ rw (known, fresh) (rw (find_order-claimed tenant id s o known fresh) refl)
  ]
]
