-- ===== src/Examples/Checkouts.antt =====
-- A shop with one cart of two lines, a coupon, a promotion and stock for the first line only.
use all_in_one_v2_api.Base.{
  ◌≡◌, refl, true, false, none, some, [], ◌∷◌, arith, find, http, err, Ends, Everywhere,
  if◌then◌else◌, List, ◌==◌, state_of, Everywhere-nil, Everywhere-insert, insert, find_first,
  any_row, update_many, on, ◌>>=◌,
}
use all_in_one_v2_api.Base.Int.{pos}
use all_in_one_v2_api.Promotion.{percentage_off}
use all_in_one_v2_api.Inventory.{Stock, effective_available_stock, reserve_stock}
use all_in_one_v2_api.Inventory.Interleaved.{IsSound}
use all_in_one_v2_api.Commerce.Coupons.{Coupon, DiscountType}
use all_in_one_v2_api.Commerce.Checkout.Shop.{CartItemLike, PromotionRow, Shop, Desk, Params}
use all_in_one_v2_api.Commerce.Checkout.Reserving.{reserve_line, reserve_lines}
use all_in_one_v2_api.Commerce.Checkout.Placing.{create_order_from_items, checkout_from_cart}
use all_in_one_v2_api.Commerce.Checkout.Outcome.{OnlyStock}
use all_in_one_v2_api.Commerce.Checkout.Effect.{
  AddsUp, HasOrder, EmptiesCart, create_order_effect, checkout_from_cart_effect,
}
use all_in_one_v2_api.Commerce.Checkout.Limits.{IsWithinLimits, CouponFits, PromotionFits}
use all_in_one_v2_api.Commerce.Checkout.Shelves.{IsShelved}
use all_in_one_v2_api.Commerce.Checkout.Leftover.{create_order_leaves_reservations}
use all_in_one_v2_api.Commerce.Checkout.Visits.{
  Visit, from_cart, direct, serve_visits, serve_visits-IsWithinLimits, serve_visits-IsShelved,
}

abbrev pub desk : Desk
desk = record {
  tenant = 1;
  now = 50;
  notifier_up = true;
  variant_of = λ v. none;
  variant_matching = λ product size color. some (record { id = 41; price = 100000 });
  price_of = λ v. if v == 41 then some 100000 else none;
  supplier_stock = λ v. none;
  cache_up = true;
}

abbrev shopper : Params
shopper = record {
  customer_id = some 11;
  session_id = none;
  shipping_address_id = none;
  coupon_code = some 7;
  promotion_code = none;
  shipping_quote_id = none;
  shipping_logistic_name = none;
}

abbrev pub plain_shopper : Params
plain_shopper = record shopper { coupon_code = none }

abbrev pub two_shirts : CartItemLike
two_shirts = record { product_variant_id = 41; quantity = 2; unit_price = 100000 }

abbrev one_hat : CartItemLike
one_hat = record { product_variant_id = 42; quantity = 1; unit_price = 50000 }

abbrev half_off : Coupon
half_off = record {
  tenant_id = 1;
  code = 7;
  discount_type = DiscountType.percentage;
  discount_value = 500000;
  min_order_value = none;
  max_discount = none;
  usage_limit = some 1;
  usage_count = 0;
  expires_at = none;
  is_active = true;
  deleted = false;
}

abbrev spring_sale : PromotionRow
spring_sale = record {
  tenant_id = 1;
  deleted = false;
  is_active = true;
  starts = none;
  ends = none;
  usage_limit = some 3;
  usage_count = 2;
  code = none;
  priority = 0;
  rules = [];
  targets = [];
  rewards = percentage_off 100000 none ∷ [];
}

abbrev shirt_stock : Stock
shirt_stock = record {
  tenant_id = 1;
  variant_id = 41;
  location_id = 9;
  on_hand = 5;
  reserved = 1;
  available = pos 4;
  reorder_point = 0;
  version = 0;
}

abbrev pub market : Shop
market = record {
  carts = (2, record { tenant_id = 1; customer_id = some 11; session_id = none }) ∷ [];
  cart_items =
      (
        3,
        record {
          tenant_id = 1;
          cart_id = 2;
          product_variant_id = 41;
          quantity = 2;
          unit_price = 100000;
        },
      )
      ∷ [];
  addresses = [];
  coupons = record { rows = (4, half_off) ∷ []; next_id = 5 };
  promotions = (6, spring_sale) ∷ [];
  warehouse = record { stocks = (7, shirt_stock) ∷ []; next_id = 8 };
  orders = [];
  quotes = [];
  told = [];
  next_id = 100;
}

abbrev visits : List Visit
visits =
    from_cart desk shopper
    ∷ direct desk plain_shopper 21
        (record { product_id = 51; size = none; color = none; quantity = 2 } ∷ [])
    ∷ []

no_orders : Everywhere AddsUp market.orders
no_orders = Everywhere-nil AddsUp

within : IsWithinLimits market
unfolding find insert
within = record {
  coupons_keyed = (refl, tt);
  promotions_keyed = (refl, tt);
  coupons_fit =
      Everywhere-insert CouponFits 4 half_off [] (omega arith) (Everywhere-nil CouponFits);
  promotions_fit =
      Everywhere-insert PromotionFits 6 spring_sale [] (omega arith) (Everywhere-nil PromotionFits);
}

shelved : IsShelved (market.warehouse).stocks
unfolding find insert
shelved = record {
  keyed = (refl, tt);
  alone = λ k j a b h g same. ground arith;
  sound = Everywhere-insert IsSound 7 shirt_stock [] (omega arith, refl) (Everywhere-nil IsSound);
}

create_order_effect_example :
    Ends
      (λ id t. HasOrder desk shopper (two_shirts ∷ []) market id t)
      (λ _ t. OnlyStock market t)
      (create_order_from_items desk shopper none (two_shirts ∷ []) market)
create_order_effect_example = create_order_effect desk shopper none (two_shirts ∷ []) market

checkout_from_cart_effect_example :
    Ends
      (λ id t. EmptiesCart desk shopper market id t)
      (λ _ t. OnlyStock market t)
      (checkout_from_cart desk shopper market)
checkout_from_cart_effect_example = checkout_from_cart_effect desk shopper market

serve_visits-IsWithinLimits_example : IsWithinLimits (serve_visits visits market)
serve_visits-IsWithinLimits_example = serve_visits-IsWithinLimits visits market within

serve_visits-IsShelved_example : IsShelved ((serve_visits visits market).warehouse).stocks
serve_visits-IsShelved_example = serve_visits-IsShelved visits market shelved

create_order_leaves_reservations_example :
    create_order_from_items desk plain_shopper none (two_shirts ∷ one_hat ∷ []) market
    ≡ err (http 400) (state_of (reserve_lines desk (two_shirts ∷ []) market))
unfolding reserve_lines reserve_line effective_available_stock reserve_stock find_first any_row
    update_many on ◌>>=◌
create_order_leaves_reservations_example =
    create_order_leaves_reservations desk plain_shopper none (two_shirts ∷ []) one_hat [] market
      (state_of (reserve_lines desk (two_shirts ∷ []) market)) refl refl refl refl refl
