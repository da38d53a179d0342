-- ===== src/Commerce/Checkout/Placing.antt =====
-- order.service.ts: createOrderFromItems, checkoutFromCart and checkoutDirect.
use all_in_one_v2_api.Base.{
  ℕ, ◌+◌, ◌-◌, ◌/◌, ◌==◌, Bool, not, ◌&&◌, ◌||◌, Option, none, some, List, [], ◌∷◌, map, is_some,
  is_empty, if◌then◌else◌, Table, find_first, insert, delete_many, rows_where, http, thrown, ok,
  err, pure, ◌>>=◌, ◌>>◌, gets, or_throw, guard, attempt,
}
use all_in_one_v2_api.Promotion.{Evaluation, fine}
use all_in_one_v2_api.Commerce.Status.{OrderStatus}
use all_in_one_v2_api.Commerce.Store.{owned_by, same_id}
use all_in_one_v2_api.Commerce.Coupons.{Coupon, Coupons, increment_usage}
use all_in_one_v2_api.Commerce.Checkout.Shop.{
  Cart, CartItem, CartItemLike, PlacedOrder, Shop, DirectItem, Desk, Params, Desking,
}
use all_in_one_v2_api.Commerce.Checkout.Candidates.{increment_promotions}
use all_in_one_v2_api.Commerce.Checkout.Pricing.{
  subtotal_of, check_address, claimed_coupon, promotions_for, discount_amount, quoted_shipping,
  shipping_amount,
}
use all_in_one_v2_api.Commerce.Checkout.Reserving.{reserve_lines}

-- what the transaction is given
pub record Priced : Type 0 where
  pub lines : List CartItemLike
  pub coupon : Option (ℕ × Coupon)
  pub evaluation : Evaluation
  pub shipping : ℕ

abbrev pub id_of : Option (ℕ × Coupon) → Option ℕ
id_of none = none
id_of (some (id, _)) = some id

-- guests are known by their session
abbrev pub session_of : Params → Option ℕ
session_of p = if is_some p.customer_id then none else p.session_id

-- A column of the type Decimal(18, 4) keeps four decimals: the database rounds what it is given.
abbrev pub to_column : ℕ → ℕ
to_column amount = (amount + 500000) / 1000000

-- the order that is created; no tax is calculated
abbrev pub placed_order : Desk → Params → Priced → PlacedOrder
placed_order d p q =
    let subtotal = subtotal_of q.lines in
    let discount = discount_amount q.coupon q.evaluation (subtotal_of q.lines) in
    let shipping = shipping_amount q.evaluation q.shipping in
    record {
      tenant_id = d.tenant;
      subtotal = subtotal;
      discount_amount = to_column discount;
      tax_amount = 0;
      shipping_amount = shipping;
      total_amount = to_column (fine subtotal - discount + 0 + fine shipping);
      status = OrderStatus.pending;
      customer_id = p.customer_id;
      session_id = session_of p;
      shipping_address = p.shipping_address_id;
      coupon = id_of q.coupon;
      promotion = (q.evaluation).promotion_id;
      items = q.lines;
    }

abbrev pub claim_coupon : Option (ℕ × Coupon) → Coupons → Coupons
claim_coupon none c = c
claim_coupon (some (id, _)) c = increment_usage id c

-- the cart that is emptied, for checkoutFromCart
abbrev pub clear_cart : Option ℕ → Table CartItem → Table CartItem
clear_cart none t = t
clear_cart (some cart) t = delete_many (λ _ (i : CartItem). i.cart_id == cart) t

-- the transaction
unfoldable pub place_order : Desk → Params → Option ℕ → Priced → Desking ℕ
unfolding increment_promotions
place_order d p cart q s = ok s.next_id (record s {
  orders = insert s.next_id (placed_order d p q) s.orders;
  promotions = increment_promotions (q.evaluation).applied s.promotions;
  coupons = claim_coupon q.coupon s.coupons;
  cart_items = clear_cart cart s.cart_items;
  next_id = s.next_id + 1;
})

-- createOrderFromItems
unfoldable pub create_order_from_items : Desk → Params → Option ℕ → List CartItemLike → Desking ℕ
create_order_from_items d p cart lines = do
  check_address p.customer_id p.shipping_address_id
  coupon ← claimed_coupon d p.coupon_code (subtotal_of lines)
  evaluation ← gets (promotions_for d p lines)
  shipping ← quoted_shipping d p p.shipping_quote_id
  reserve_lines d lines
  place_order d p cart
      (record { lines = lines; coupon = coupon; evaluation = evaluation; shipping = shipping })

abbrev pub is_cart_of : ℕ → Option ℕ → Option ℕ → ℕ → Cart → Bool
is_cart_of tenant (some customer) session _ c =
    c.tenant_id == tenant && owned_by c.customer_id customer
is_cart_of tenant none session _ c = c.tenant_id == tenant && same_id session c.session_id

abbrev pub line_of_item : CartItem → CartItemLike
line_of_item i = record {
  product_variant_id = i.product_variant_id;
  quantity = i.quantity;
  unit_price = i.unit_price;
}

-- the items of a cart as the query includes them
unfoldable pub items_of_cart : ℕ → Shop → List CartItemLike
items_of_cart cart s =
    map line_of_item (rows_where (λ _ (i : CartItem). i.cart_id == cart) s.cart_items)

-- checkoutFromCart
unfoldable pub checkout_from_cart : Desk → Params → Desking ℕ
checkout_from_cart d p = do
  guard (is_some p.customer_id || is_some p.session_id) (http 400)
  carts ← gets (λ (s : Shop). find_first (is_cart_of d.tenant p.customer_id p.session_id) s.carts)
  cart ← or_throw carts (http 400)
  lines ← gets (items_of_cart cart.0)
  guard (not (is_empty lines)) (http 400)
  create_order_from_items d p (some cart.0) lines

-- resolveDirectCheckoutItems
unfoldable pub resolve_direct_checkout_items : Desk → List DirectItem → Desking (List CartItemLike)
resolve_direct_checkout_items d [] = pure []
resolve_direct_checkout_items d (i ∷ items) = do
  variant ← or_throw (d.variant_matching i.product_id i.size i.color) (http 404)
  lines ← resolve_direct_checkout_items d items
  pure (
      record { product_variant_id = variant.id; quantity = i.quantity; unit_price = variant.price }
      ∷ lines)

unfoldable pub tell_placed : Desk → ℕ → ℕ → Desking (Unit {0})
tell_placed d user order s =
    if d.notifier_up then ok tt (record s { told = (user, order) ∷ s.told }) else err thrown s

-- checkoutDirect
unfoldable pub checkout_direct : Desk → Params → ℕ → List DirectItem → Desking ℕ
unfolding tell_placed
checkout_direct d p user items = do
  guard (not (is_empty items)) (http 400)
  lines ← resolve_direct_checkout_items d items
  order ← create_order_from_items d (record p { session_id = none }) none lines
  attempt (tell_placed d user order)
  pure order
