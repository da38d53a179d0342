-- ===== src/Commerce/Checkout/Pricing.antt =====
-- order.service.ts, the amounts of createOrderFromItems: subtotal, coupon, promotions and shipping.
use all_in_one_v2_api.Base.{
  ℕ, ◌+◌, ◌*◌, ◌==◌, Bool, true, false, not, ◌&&◌, Option, none, some, List, [], ◌∷◌, map, find_in,
  get_or, if◌then◌else◌, find, any_row, http, pure, ◌>>=◌, ◌>>◌, gets, or_throw, guard,
}
use all_in_one_v2_api.Promotion.{LineItem, Context, Evaluation, fine, capped, at_most, evaluate}
use all_in_one_v2_api.Commerce.Store.{owned_by}
use all_in_one_v2_api.Commerce.Coupons.{DiscountType, Coupon, find_by_code, assert_usable}
use all_in_one_v2_api.Commerce.Checkout.Shop.{
  CartItemLike, PlacedOrder, Shop, QuoteOption, VariantMeta, Desk, Params, Desking, in_coupons,
}
use all_in_one_v2_api.Commerce.Checkout.Candidates.{find_active_candidates}

-- the `reduce` of the subtotal
unfoldable pub subtotal_of : List CartItemLike → ℕ
subtotal_of [] = 0
subtotal_of (l ∷ lines) = l.unit_price * l.quantity + subtotal_of lines

-- `!address || (customerId && address.customerId !== customerId)`, negated, on the address's customer
abbrev pub may_deliver : Option ℕ → Option ℕ → Bool
may_deliver customer none = false
may_deliver none (some owner) = true
may_deliver (some customer) (some owner) = owner == customer

-- the check of the shipping address
unfoldable pub check_address : Option ℕ → Option ℕ → Desking (Unit {0})
check_address customer none = pure tt
check_address customer (some address) = do
  owner ← gets (λ (s : Shop). find address s.addresses)
  guard (may_deliver customer owner) (http 404)

-- the coupon of the request: found by its code and usable for the subtotal
unfoldable pub claimed_coupon : Desk → Option ℕ → ℕ → Desking (Option (ℕ × Coupon))
claimed_coupon d none subtotal = pure none
claimed_coupon d (some code) subtotal = do
  found ← or_throw (← gets (λ (s : Shop). find_by_code d.tenant code s.coupons)) (http 400)
  in_coupons (assert_usable d.now found.1 (some subtotal))
  pure (some found)

-- the discount by the coupon's type, before it is held to the subtotal
abbrev pub discount_by_type : DiscountType → Coupon → ℕ → ℕ
discount_by_type DiscountType.percentage c subtotal =
    capped c.max_discount (subtotal * c.discount_value)
discount_by_type DiscountType.fixed_amount c subtotal = fine c.discount_value
discount_by_type DiscountType.free_shipping c subtotal = 0

-- couponDiscount
abbrev pub coupon_discount : Option (ℕ × Coupon) → ℕ → ℕ
coupon_discount none subtotal = 0
coupon_discount (some (_, c)) subtotal =
    at_most (fine subtotal) (discount_by_type c.discount_type c subtotal)

-- `meta?.productId ?? ''`; 0 is the id of no product
abbrev pub no_meta : VariantMeta
no_meta = record { product_id = 0; category_id = none; collection_ids = [] }

abbrev pub line_item_of : VariantMeta → CartItemLike → LineItem
line_item_of meta l = record {
  variant_id = l.product_variant_id;
  product_id = meta.product_id;
  category_id = meta.category_id;
  collection_ids = meta.collection_ids;
  quantity = l.quantity;
  unit_price = l.unit_price;
}

-- buildPromotionLineItems
abbrev pub promotion_line_items : Desk → List CartItemLike → List LineItem
promotion_line_items d lines =
    map (λ (l : CartItemLike). line_item_of (get_or (d.variant_of l.product_variant_id) no_meta) l)
      lines

abbrev pub is_order_of_customer : ℕ → ℕ → ℕ → PlacedOrder → Bool
is_order_of_customer tenant customer _ o = o.tenant_id == tenant && owned_by o.customer_id customer

-- isCustomersFirstOrder, and `false` for a guest
abbrev pub is_first_order : Desk → Option ℕ → Shop → Bool
is_first_order d none s = false
is_first_order d (some customer) s = not (any_row (is_order_of_customer d.tenant customer) s.orders)

-- promoEvaluation
unfoldable pub promotions_for : Desk → Params → List CartItemLike → Shop → Evaluation
promotions_for d p lines s =
    let context : Context = record {
      items = promotion_line_items d lines;
      subtotal = subtotal_of lines;
      is_first_order = is_first_order d p.customer_id s;
    } in
    evaluate context (find_active_candidates d.tenant d.now p.promotion_code s.promotions)

-- discountAmount
abbrev pub discount_amount : Option (ℕ × Coupon) → Evaluation → ℕ → ℕ
discount_amount coupon e subtotal =
    at_most (fine subtotal) (coupon_discount coupon subtotal + e.discount_amount)

-- resolveQuotedShipping, on what the cache holds
abbrev pub pick_option : Option (List QuoteOption) → Option ℕ → Option QuoteOption
pick_option none name = none
pick_option (some []) name = none
pick_option (some (o ∷ options)) none = some o
pick_option (some (o ∷ options)) (some name) =
    find_in (λ (x : QuoteOption). x.logistic_name == name) (o ∷ options)

-- the key of a quote names its tenant
abbrev pub options_of : ℕ → Option (ℕ × List QuoteOption) → Option (List QuoteOption)
options_of tenant none = none
options_of tenant (some (owner, options)) = if owner == tenant then some options else none

-- CacheUtil.get, for a quote
abbrev pub cached : Desk → ℕ → Shop → Option (List QuoteOption)
cached d quote s = if d.cache_up then options_of d.tenant (find quote s.quotes) else none

-- the shipping that was quoted, before promotions
unfoldable pub quoted_shipping : Desk → Params → Option ℕ → Desking ℕ
quoted_shipping d p none = pure 0
quoted_shipping d p (some quote) = do
  options ← gets (cached d quote)
  option ← or_throw (pick_option options p.shipping_logistic_name) (http 400)
  pure option.price

-- `if (promoEvaluation.freeShipping) shippingAmount = 0`
abbrev pub shipping_amount : Evaluation → ℕ → ℕ
shipping_amount e quoted = if e.free_shipping then 0 else quoted
