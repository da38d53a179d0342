-- ===== src/Analytics/Totals.antt =====
-- What recordOrderSale adds up: the rollups account for every paid line, and an order counts once for
-- each of its products.
use all_in_one_v2_api.Base.{
  ℕ, ◌+◌, ◌≡◌, refl, ◌==◌, ◌||◌, Bool, Option, List, [], ◌∷◌, arith, if◌then◌else◌, Table, find,
  IsKeyed, any, is_some, ==_iff,
}
use all_in_one_v2_api.Analytics.{
  Line, Group, Sales, Rollups, line_total, add_to_group, group_by_product, upsert_sales, upsert_all,
  fold_order,
}

-- Sums over lines, groups and rows.
pub lines_revenue : List Line → ℕ
lines_revenue [] = 0
lines_revenue (l ∷ ls) = line_total l + lines_revenue ls

pub lines_quantity : List Line → ℕ
lines_quantity [] = 0
lines_quantity (l ∷ ls) = l.quantity + lines_quantity ls

groups_revenue : Table Group → ℕ
groups_revenue [] = 0
groups_revenue ((k, g) ∷ t) = g.revenue + groups_revenue t

groups_quantity : Table Group → ℕ
groups_quantity [] = 0
groups_quantity ((k, g) ∷ t) = g.qty + groups_quantity t

pub sales_revenue : Table Sales → ℕ
sales_revenue [] = 0
sales_revenue ((k, r) ∷ t) = r.total_revenue + sales_revenue t

pub sales_quantity : Table Sales → ℕ
sales_quantity [] = 0
sales_quantity ((k, r) ∷ t) = r.total_sold + sales_quantity t

-- `totalOrders` of a product, 0 without a row
pub orders_of : ℕ → Table Sales → ℕ
orders_of k [] = 0
orders_of k ((i, r) ∷ t) = if i == k then r.total_orders else orders_of k t

groups-add :
    (k q v : ℕ) (t : Table Group)
    → (groups_revenue (add_to_group k q v t) ≡ v + groups_revenue t)
      × (groups_quantity (add_to_group k q v t) ≡ q + groups_quantity t)
unfolding groups_revenue groups_quantity add_to_group
groups-add k q v [] = omega arith
groups-add k q v ((i, g) ∷ t) = ground (arith, groups-add k q v t)

groups-group :
    (ls : List Line) (t : Table Group)
    → (groups_revenue (group_by_product ls t) ≡ lines_revenue ls + groups_revenue t)
      × (groups_quantity (group_by_product ls t) ≡ lines_quantity ls + groups_quantity t)
unfolding lines_revenue lines_quantity group_by_product
groups-group [] t = omega arith
groups-group (l ∷ ls) t = omega (
  arith,
  groups-add l.product_id l.quantity (line_total l) t,
  groups-group ls (add_to_group l.product_id l.quantity (line_total l) t),
)

sales-upsert :
    (k : ℕ) (g : Group) (t : Table Sales)
    → (sales_revenue (upsert_sales k g t) ≡ g.revenue + sales_revenue t)
      × (sales_quantity (upsert_sales k g t) ≡ g.qty + sales_quantity t)
unfolding sales_revenue sales_quantity upsert_sales
sales-upsert k g [] = omega arith
sales-upsert k g ((i, r) ∷ t) = ground (arith, sales-upsert k g t)

sales-upsert_all :
    (gs : Table Group) (t : Table Sales)
    → (sales_revenue (upsert_all gs t) ≡ groups_revenue gs + sales_revenue t)
      × (sales_quantity (upsert_all gs t) ≡ groups_quantity gs + sales_quantity t)
unfolding groups_revenue groups_quantity upsert_all
sales-upsert_all [] t = omega arith
sales-upsert_all ((k, g) ∷ gs) t =
    omega (arith, sales-upsert k g t, sales-upsert_all gs (upsert_sales k g t))

find-add :
    (j k q v : ℕ) (t : Table Group)
    → is_some (find j (add_to_group k q v t)) ≡ (k == j || is_some (find j t))
unfolding find add_to_group
find-add j k q v [] = ground arith
find-add j k q v ((i, g) ∷ t) = ground (arith, find-add j k q v t)

add-IsKeyed : (k q v : ℕ) (t : Table Group) → IsKeyed t → IsKeyed (add_to_group k q v t)
unfolding find add_to_group
add-IsKeyed k q v [] u = (refl, tt)
add-IsKeyed k q v ((i, g) ∷ t) u = ground (arith, find-add i k q v t, add-IsKeyed k q v t u.1)

abbrev names : ℕ → Line → Bool
names k l = l.product_id == k

find-group :
    (j : ℕ) (ls : List Line) (t : Table Group)
    → is_some (find j (group_by_product ls t)) ≡ (any (names j) ls || is_some (find j t))
unfolding group_by_product
find-group j [] t = refl
find-group j (l ∷ ls) t = ground (
  arith,
  find-group j ls (add_to_group l.product_id l.quantity (line_total l) t),
  find-add j l.product_id l.quantity (line_total l) t,
)

group-IsKeyed : (ls : List Line) (t : Table Group) → IsKeyed t → IsKeyed (group_by_product ls t)
unfolding group_by_product
group-IsKeyed [] t u = u
group-IsKeyed (l ∷ ls) t u =
    group-IsKeyed ls _ (add-IsKeyed l.product_id l.quantity (line_total l) t u)

orders-upsert :
    (j k : ℕ) (g : Group) (t : Table Sales)
    → orders_of j (upsert_sales k g t) ≡ (if k == j then orders_of j t + 1 else orders_of j t)
unfolding orders_of upsert_sales
orders-upsert j k g [] = ground arith
orders-upsert j k g ((i, r) ∷ t) = ground (arith, orders-upsert j k g t)

orders-upsert_all :
    (j : ℕ) (gs : Table Group) (t : Table Sales)
    → IsKeyed gs
    → orders_of j (upsert_all gs t)
      ≡ (if is_some (find j gs) then orders_of j t + 1 else orders_of j t)
unfolding find upsert_all
orders-upsert_all j [] t u = refl
orders-upsert_all j ((k, g) ∷ gs) t u =
    ground
      (arith, orders-upsert j k g t, orders-upsert_all j gs (upsert_sales k g t) u.1, ==_iff j k)

-- Recording an order adds to the product rows exactly the revenue and the units of its lines.
pub fold_order_conserves :
    (lines : List Line) (customer : Option ℕ) (day total : ℕ) (r : Rollups)
    → let rows = (fold_order lines customer day total r).product_sales in
      (sales_revenue rows ≡ lines_revenue lines + sales_revenue r.product_sales)
      × (sales_quantity rows ≡ lines_quantity lines + sales_quantity r.product_sales)
unfolding fold_order groups_revenue groups_quantity
fold_order_conserves lines customer day total r =
    omega
      (arith, groups-group lines [], sales-upsert_all (group_by_product lines []) r.product_sales)

-- Recording an order counts one more order for each product with a line in it, however many lines, and
-- none for any other product.
pub fold_order_counts_once :
    (lines : List Line) (customer : Option ℕ) (day total : ℕ) (r : Rollups) (product : ℕ)
    → orders_of product (fold_order lines customer day total r).product_sales ≡ (
        if any (names product) lines
        then orders_of product r.product_sales + 1
        else orders_of product r.product_sales)
unfolding fold_order find
fold_order_counts_once lines customer day total r product = ground (
  arith,
  orders-upsert_all product (group_by_product lines []) r.product_sales (group-IsKeyed lines [] tt),
  find-group product lines [],
)
