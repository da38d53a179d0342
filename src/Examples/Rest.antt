-- ===== src/Examples/Rest.antt =====
-- The theorems on sales, promotions, stock, memberships and suppliers at concrete values.
use all_in_one_v2_api.Commerce.Store.{done}
use all_in_one_v2_api.Suppliers.{marked}
use all_in_one_v2_api.Base.{insert, find}
use all_in_one_v2_api.Suppliers.Overlap.{
  Workers, WorkerRun, step, stay, reads_none, reads_started, marks, answers, records, notes, idle,
  answered_unless_raced,
}
use all_in_one_v2_api.Base.{
  ◌≡◌, refl, ℕ, ◌+◌, ◌≤◌, true, false, Option, none, some, List, [], ◌∷◌, arith, find_first,
  state_of,
}
use all_in_one_v2_api.Base.Int.{pos}
use all_in_one_v2_api.Analytics.{Line, fold_order}
use all_in_one_v2_api.Analytics.Totals.{
  fold_order_conserves, sales_revenue, sales_quantity, lines_revenue, lines_quantity,
}
use all_in_one_v2_api.Promotion.{Promo, Context, percentage_off, fixed_amount_off, evaluate, fine}
use all_in_one_v2_api.Promotion.Bounds.{evaluate_bounded, sum_applied}
use all_in_one_v2_api.Inventory.{
  Stock, Warehouse, Place, stock_at, reserve_stock, release_reservation,
}
use all_in_one_v2_api.Inventory.Reserving.{release-reserve}
use all_in_one_v2_api.Inventory.Interleaved.{
  Shared, look, reserve, stay, step, newest, older, written, IsSound, Run-IsSound,
}
use all_in_one_v2_api.Inventory.{reserved_more}
use all_in_one_v2_api.Tenants.{tenant_role}
use all_in_one_v2_api.Commerce.Store.{RefundMessage}
use all_in_one_v2_api.Commerce.Status.{SupplierOrderStatus}
use all_in_one_v2_api.Suppliers.{Dispatch, Adapter, with_refunds}
use all_in_one_v2_api.Suppliers.Once.{
  handled, died, deliver_all, answered_calls, supplier_asked_once,
}
use all_in_one_v2_api.Tenants.Permissions.{permission}
use all_in_one_v2_api.Commerce.Coupons.{Coupons, CouponBody, create_coupon, delete_coupon}
use all_in_one_v2_api.Commerce.Coupons.Codes.{count_code, coupon_code_unique}
use all_in_one_v2_api.Examples.Fixtures.{no_rollups}

abbrev two_lines : List Line
two_lines =
    record { product_id = 51; category_id = some 61; quantity = 2; unit_price = 100 }
    ∷ record { product_id = 51; category_id = none; quantity = 1; unit_price = 50 }
    ∷ []

fold_order_conserves_example :
    (sales_revenue (fold_order two_lines none 5 250 no_rollups).product_sales
      ≡ lines_revenue two_lines + sales_revenue [])
    × (sales_quantity (fold_order two_lines none 5 250 no_rollups).product_sales
        ≡ lines_quantity two_lines + sales_quantity [])
fold_order_conserves_example = fold_order_conserves two_lines none 5 250 no_rollups

abbrev pub a_cart : Context
a_cart = record {
  items =
      record {
        variant_id = 41;
        product_id = 51;
        category_id = none;
        collection_ids = [];
        quantity = 2;
        unit_price = 100000;
      }
      ∷ [];
  subtotal = 200000;
  is_first_order = false;
}

abbrev pub two_promos : List Promo
two_promos =
    record { id = 1; rules = []; targets = []; rewards = percentage_off 900000 none ∷ [] }
    ∷ record { id = 2; rules = []; targets = []; rewards = fixed_amount_off 50000 ∷ [] }
    ∷ []

evaluate_bounded_example :
    ((evaluate a_cart two_promos).discount_amount ≤ fine 200000)
    × (sum_applied (evaluate a_cart two_promos).applied
        ≡ (evaluate a_cart two_promos).discount_amount)
evaluate_bounded_example = evaluate_bounded a_cart two_promos

abbrev pub shelf : Place
shelf = record { tenant = 1; variant = 41; location = 45 }

abbrev pub ten_left : Stock
ten_left = record {
  tenant_id = 1;
  variant_id = 41;
  location_id = 45;
  on_hand = 12;
  reserved = 2;
  available = pos 10;
  reorder_point = 5;
  version = 3;
}

abbrev pub one_shelf : Warehouse
one_shelf = record { stocks = (44, ten_left) ∷ []; next_id = 100 }

release-reserve_example :
    stock_at shelf
      (state_of (release_reservation shelf 4 (state_of (reserve_stock shelf 4 one_shelf)))).stocks
    ≡ some (44, record ten_left { version = 3 + 2 })
unfolding stock_at find_first
release-reserve_example = release-reserve shelf 4 one_shelf 44 ten_left refl refl (omega arith)

-- two requests read the row, and both try to reserve seven
abbrev contended : Shared
contended = record {
  row = written ten_left (reserved_more ten_left 7) (reserved_more ten_left 7 ten_left);
  read = ten_left ∷ ten_left ∷ [];
}

Run-IsSound_example : IsSound contended.row
Run-IsSound_example =
    Run-IsSound {row = ten_left} {d = contended}
      (step look (
        step look (
          step (reserve {found = ten_left} 7 newest refl)
            (step (reserve {found = ten_left} 7 (older newest) refl) stay))))
      (omega arith, refl)

abbrev a_message : RefundMessage
a_message = record { refund_id = 5; supplier_order_id = 6; supplier_id = 7; external_id = 8 }

abbrev desk : Dispatch
desk = record {
  supplier_orders =
      (
        6,
        record {
          order_id = 2;
          supplier_id = 7;
          external_id = some 8;
          status = SupplierOrderStatus.pending;
          refund_requests = [];
        },
      )
      ∷ [];
  calls = [];
}

abbrev answering : ℕ → Option Adapter
answering supplier = some (with_refunds (λ external. some true))

supplier_asked_once_example :
    answered_calls 5
      (deliver_all a_message
        (died answering ∷ handled answering ∷ handled answering ∷ [])
        desk).calls
    ≤ 1
unfolding answered_calls
supplier_asked_once_example =
    supplier_asked_once a_message (died answering ∷ handled answering ∷ handled answering ∷ []) desk
      refl

abbrev pub no_coupons : Coupons
no_coupons = record { rows = []; next_id = 1 }

abbrev pub a_coupon : CouponBody
a_coupon = record {
  code = some 9;
  discount_type = none;
  discount_value = some 100000;
  min_order_value = none;
  max_discount = none;
  usage_limit = some 5;
  expires_at = none;
  is_active = none;
}

coupon_code_unique_example :
    (count_code 1 9 (state_of (create_coupon 1 a_coupon no_coupons)).rows ≤ 1)
    × (count_code 1 9 (state_of (delete_coupon 1 1 no_coupons)).rows ≤ 1)
unfolding count_code
coupon_code_unique_example = coupon_code_unique 1 1 a_coupon no_coupons 1 9 (omega arith)

-- the outcome, and the note of a worker that found the first one's mark, written last
abbrev noted_last : Workers
noted_last = record (idle []) {
  requests = insert 5 (done false) (insert 5 (done true) (marked 5 true []));
  answered = 1;
}

-- a worker reads no mark, writes it, has the answer and records it, while a second finds the mark
abbrev overlapping : WorkerRun 5 (idle []) noted_last
unfolding find insert
overlapping = step (reads_none refl) (
    step (marks (omega arith)) (
      step (reads_started refl) (
        step (answers (omega arith))
          (step (records true (omega arith)) (step (notes (omega arith)) stay)))))

answered_unless_raced_example :
    noted_last.answered ≤ 1 + (noted_last.raced + noted_last.overwritten)
answered_unless_raced_example = answered_unless_raced 5 [] overlapping

-- two workers read no mark before either writes one, and the supplier answers both
abbrev both_asked : Workers
both_asked = record (idle []) {
  requests = marked 5 true (marked 5 true []);
  answering = 2;
  answered = 2;
  raced = 1;
}

both_ask : WorkerRun 5 (idle []) both_asked
unfolding find
both_ask = step (reads_none refl) (
    step (reads_none refl) (
      step (marks (omega arith)) (
        step (marks (omega arith))
          (step (answers (omega arith)) (step (answers (omega arith)) stay)))))
