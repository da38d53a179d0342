-- ===== src/Analytics.antt =====
-- The rollup tables of src/modules/system/analytics-rollup.service.ts, written once for each paid
-- order. `avgOrderValue`, the quotient of two columns below, and `lastSoldAt` are left out.
use all_in_one_v2_api.Base.{
  ℕ, ◌+◌, ◌*◌, ◌==◌, Option, none, some, List, [], ◌∷◌, if◌then◌else◌, Table,
}
pub mod Totals

pub record Line : Type 0 where
  pub product_id : ℕ
  pub category_id : Option ℕ
  pub quantity : ℕ
  pub unit_price : ℕ

-- the value of `byProduct` and `byCategory`
pub record Group : Type 0 where
  pub qty : ℕ
  pub revenue : ℕ

-- a row of analyticsProductSales and of analyticsCategorySales
pub record Sales : Type 0 where
  pub total_sold : ℕ
  pub total_revenue : ℕ
  pub total_orders : ℕ

-- a row of analyticsCustomer
pub record Lifetime : Type 0 where
  pub lifetime_spend : ℕ
  pub customer_orders : ℕ

-- a row of analyticsDailySales
pub record Daily : Type 0 where
  pub orders_count : ℕ
  pub revenue_amount : ℕ

-- The rows of one tenant, under the product, category, customer and day.
pub record Rollups : Type 0 where
  pub product_sales : Table Sales
  pub category_sales : Table Sales
  pub customers : Table Lifetime
  pub daily_sales : Table Daily

-- `map.set(key, { qty: old.qty + qty, revenue: old.revenue.plus(lineTotal) })`
unfoldable pub add_to_group : ℕ → ℕ → ℕ → Table Group → Table Group
add_to_group k qty revenue [] = (k, record { qty = qty; revenue = revenue }) ∷ []
add_to_group k qty revenue ((i, g) ∷ t) =
    if i == k
    then (i, record { qty = g.qty + qty; revenue = g.revenue + revenue }) ∷ t
    else (i, g) ∷ add_to_group k qty revenue t

abbrev pub line_total : Line → ℕ
line_total l = l.unit_price * l.quantity

-- the loop over `order.items`, for products
unfoldable pub group_by_product : List Line → Table Group → Table Group
group_by_product [] groups = groups
group_by_product (l ∷ ls) groups =
    group_by_product ls (add_to_group l.product_id l.quantity (line_total l) groups)

abbrev add_to_category : Option ℕ → Line → Table Group → Table Group
add_to_category none l groups = groups
add_to_category (some c) l groups = add_to_group c l.quantity (line_total l) groups

-- the same loop, for the lines that have a category
unfoldable pub group_by_category : List Line → Table Group → Table Group
group_by_category [] groups = groups
group_by_category (l ∷ ls) groups = group_by_category ls (add_to_category l.category_id l groups)

-- `upsert` of one group: one more order, whatever the number of its lines
unfoldable pub upsert_sales : ℕ → Group → Table Sales → Table Sales
upsert_sales k g [] =
    (k, record { total_sold = g.qty; total_revenue = g.revenue; total_orders = 1 }) ∷ []
upsert_sales k g ((i, r) ∷ t) =
    if i == k
    then (
      i,
      record {
        total_sold = r.total_sold + g.qty;
        total_revenue = r.total_revenue + g.revenue;
        total_orders = r.total_orders + 1;
      },
    )
      ∷ t
    else (i, r) ∷ upsert_sales k g t

unfoldable pub upsert_all : Table Group → Table Sales → Table Sales
upsert_all [] t = t
upsert_all ((k, g) ∷ groups) t = upsert_all groups (upsert_sales k g t)

unfoldable pub upsert_customer : ℕ → ℕ → Table Lifetime → Table Lifetime
upsert_customer k spend [] = (k, record { lifetime_spend = spend; customer_orders = 1 }) ∷ []
upsert_customer k spend ((i, c) ∷ t) =
    if i == k
    then (
      i,
      record { lifetime_spend = c.lifetime_spend + spend; customer_orders = c.customer_orders + 1 },
    )
      ∷ t
    else (i, c) ∷ upsert_customer k spend t

-- guest orders have no customer to attribute a lifetime to
abbrev upsert_owner : Option ℕ → ℕ → Table Lifetime → Table Lifetime
upsert_owner none spend t = t
upsert_owner (some c) spend t = upsert_customer c spend t

unfoldable pub upsert_day : ℕ → ℕ → Table Daily → Table Daily
upsert_day k revenue [] = (k, record { orders_count = 1; revenue_amount = revenue }) ∷ []
upsert_day k revenue ((i, d) ∷ t) =
    if i == k
    then (
      i,
      record { orders_count = d.orders_count + 1; revenue_amount = d.revenue_amount + revenue },
    )
      ∷ t
    else (i, d) ∷ upsert_day k revenue t

-- the body of recordOrderSale, once the order is claimed
unfoldable pub fold_order : List Line → Option ℕ → ℕ → ℕ → Rollups → Rollups
fold_order lines customer day total r = record {
  product_sales = upsert_all (group_by_product lines []) r.product_sales;
  category_sales = upsert_all (group_by_category lines []) r.category_sales;
  customers = upsert_owner customer total r.customers;
  daily_sales = upsert_day day total r.daily_sales;
}
