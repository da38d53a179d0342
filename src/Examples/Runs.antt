-- ===== src/Examples/Runs.antt =====
-- Runs of the handlers that no theorem opens.
use all_in_one_v2_api.Base.{
  ◌≡◌, refl, true, false, none, some, [], ◌∷◌, find, find_first, any_row, insert, update_many, err,
  http, succeeds, state_of, ◌>>=◌,
}
use all_in_one_v2_api.Base.Int.{pos, negsuc}
use all_in_one_v2_api.Commerce.Status.{OrderStatus, PaymentStatus, ReturnStatus}
use all_in_one_v2_api.Commerce.Store.{Viewer}
use all_in_one_v2_api.Commerce.Orders.Rows.{find_order, update_status}
use all_in_one_v2_api.Commerce.Orders.Service.{
  get_order_details, update_order_status, may_view, is_order_owner,
}
use all_in_one_v2_api.Commerce.Payments.Refunding.{
  refund_payment, create_refund, create_stripe_refund,
}
use all_in_one_v2_api.Commerce.Payments.Webhook.{derive_webhook_event_id, first_present}
use all_in_one_v2_api.Commerce.Returns.Rows.{find_return}
use all_in_one_v2_api.Commerce.Returns.Requests.{has_active_return}
use all_in_one_v2_api.Commerce.Returns.Refunds.{
  create_return, approve_return, reject_return, update_return_status, issue_refund,
  request_supplier_refunds,
}
use all_in_one_v2_api.Inventory.{
  stock_at, set_stock, release_reservation, effective_available_stock, stock_summary_by_variant,
  write_version,
}
use all_in_one_v2_api.Tenants.{
  TenantRole, Registry, grant, create_account_for_grant, create_membership, log_action,
}
use all_in_one_v2_api.Analytics.{
  fold_order, group_by_product, group_by_category, add_to_group, upsert_all, upsert_sales,
  upsert_customer, upsert_day,
}
use all_in_one_v2_api.Promotion.{
  evaluate, consider_all, consider, apply_promo, sum_where, cart_quantity, rewards_discount,
}
use all_in_one_v2_api.Commerce.Coupons.{
  create_coupon, validate_coupon, assert_usable, find_by_code, increment_usage,
}
use all_in_one_v2_api.Base.{update, insert}
use all_in_one_v2_api.Examples.Fixtures.{shop, shop_env, with_return, no_rollups, intent_payload}
use all_in_one_v2_api.Examples.Rest.{
  a_cart, two_promos, shelf, one_shelf, ten_left, a_coupon, no_coupons,
}

abbrev stranger : Viewer
stranger = record { customer_id = some 12; session_id = none; is_admin = false }

-- an order is hidden from a stranger
get_order_details_test :
    succeeds
      (get_order_details shop_env 2 stranger (shop OrderStatus.pending PaymentStatus.created))
    ≡ false
unfolding get_order_details ◌>>=◌ find_order find may_view is_order_owner
get_order_details_test = refl

-- a cancellation does not pass through the general endpoint
update_order_status_test :
    update_order_status shop_env 2
      (some OrderStatus.cancelled)
      (shop OrderStatus.pending PaymentStatus.created)
    ≡ err (http 400) (shop OrderStatus.pending PaymentStatus.created)
unfolding update_order_status ◌>>=◌
update_order_status_test = refl

derive_webhook_event_id_test : derive_webhook_event_id intent_payload ≡ 81
unfolding derive_webhook_event_id first_present
derive_webhook_event_id_test = refl

has_active_return_test :
    has_active_return 1 ((31, 1) ∷ []) (with_return ReturnStatus.pending) ≡ false
unfolding has_active_return any_row
has_active_return_test = refl

approve_return_test :
    succeeds (approve_return shop_env 7 (with_return ReturnStatus.under_review)) ≡ false
unfolding approve_return ◌>>=◌ find_return find
approve_return_test = refl

reject_return_test :
    succeeds (reject_return shop_env 7 none (with_return ReturnStatus.pending)) ≡ true
unfolding reject_return ◌>>=◌ find_return find update_return_status
reject_return_test = refl

create_return_test :
    succeeds (create_return shop_env 2 11 none none (shop OrderStatus.fulfilled PaymentStatus.paid))
    ≡ true
unfolding create_return
create_return_test = refl

-- a refund of the whole total closes the order and asks the gateway for it in cents
issue_refund_test :
    (state_of
      (issue_refund shop_env 2 7 200000 (with_return ReturnStatus.approved))).gateway_refunds
    ≡ (71, 2000) ∷ []
unfolding issue_refund ◌>>=◌ find_return find refund_payment find_order find_first create_refund
    create_stripe_refund update_return_status update_status request_supplier_refunds
issue_refund_test = refl

-- stock counted below what is reserved shows 0, and a release afterwards a negative count
set_stock_test :
    (stock_at shelf (state_of (set_stock shelf 1 5 one_shelf)).stocks)
    ≡ some (44, record ten_left { on_hand = 1; available = pos 0 })
unfolding set_stock ◌>>=◌ stock_at find_first update_many
set_stock_test = refl

release_reservation_test :
    (stock_at shelf
      (state_of (release_reservation shelf 0 (state_of (set_stock shelf 1 5 one_shelf)))).stocks)
    ≡ some (44, record ten_left { on_hand = 1; available = negsuc 0; version = 4 })
unfolding set_stock ◌>>=◌ stock_at find_first update_many release_reservation write_version any_row
release_reservation_test = refl

effective_available_stock_test :
    effective_available_stock 1 41 (some (pos 3)) one_shelf.stocks ≡ pos 10
unfolding effective_available_stock stock_summary_by_variant
effective_available_stock_test = refl

abbrev empty_registry : Registry
empty_registry = record { memberships = []; accounts = []; log = []; next_id = 1 }

-- an admin manager grants the role ADMIN, to an account made on the spot
grant_test :
    (state_of (
      grant
        (record { role = TenantRole.admin_manager; log_up = false })
        1
        9
        TenantRole.admin
        true
        empty_registry)).memberships
    ≡ (2, record { tenant_id = 1; user_id = 1; role = TenantRole.admin; active = true }) ∷ []
unfolding grant ◌>>=◌ find create_account_for_grant create_membership insert any_row log_action
grant_test = refl

fold_order_test :
    (fold_order
      (record { product_id = 51; category_id = some 61; quantity = 2; unit_price = 100 } ∷ [])
      (some 11)
      5
      200
      no_rollups).category_sales
    ≡ (61, record { total_sold = 2; total_revenue = 200; total_orders = 1 }) ∷ []
unfolding fold_order group_by_product group_by_category add_to_group upsert_all upsert_sales
    upsert_customer upsert_day
fold_order_test = refl

-- 90 % off and 5 off a cart of 20: the second promotion gets what remains
evaluate_test : (evaluate a_cart two_promos).discount_amount ≡ 200000000000
unfolding evaluate consider_all consider apply_promo sum_where cart_quantity rewards_discount
evaluate_test = refl

-- a coupon that was used up to its limit is refused
validate_coupon_test :
    succeeds (
      validate_coupon 1 10 9 (
        increment_usage 1
          (state_of (create_coupon 1 (record a_coupon { usage_limit = some 1 }) no_coupons))))
    ≡ false
unfolding validate_coupon ◌>>=◌ assert_usable find_by_code find_first increment_usage update
    update_many create_coupon insert any_row
validate_coupon_test = refl
