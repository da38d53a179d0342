-- ===== src/Commerce/Checkout/Effect.antt =====
-- What createOrderFromItems and checkoutFromCart do to the tables.
use mathlib.Core.Option
use all_in_one_v2_api.Base.{
  ℕ, ◌+◌, ◌-◌, ◌≤◌, ◌≡◌, refl, sym, ◌∙◌, ap, ◌==◌, true, false, Option, some, List, [], ◌∷◌, arith,
  Table, insert, delete_many, rows_where, if◌then◌else◌, Ends, Ends-weaken, bind-Ends, gets-Ends,
  guard-Ends, or_throw-Ends, http, not, ◌||◌, is_some, is_empty, find_first, none, find,
  find-update,
}
use all_in_one_v2_api.Promotion.{fine, at_most}
use all_in_one_v2_api.Commerce.Status.{OrderStatus}
use all_in_one_v2_api.Commerce.Coupons.{Coupon, Coupons, used_once_more, increment_usage}
use all_in_one_v2_api.Commerce.Checkout.Shop.{
  Cart, CartItem, CartItemLike, PlacedOrder, Shop, Desk, Params,
}
use all_in_one_v2_api.Commerce.Checkout.Pricing.{
  subtotal_of, discount_amount, promotions_for, shipping_amount,
}
use all_in_one_v2_api.Commerce.Checkout.Placing.{
  Priced, session_of, id_of, claim_coupon, placed_order, to_column, clear_cart, place_order,
  create_order_from_items, is_cart_of, items_of_cart, checkout_from_cart,
}
use all_in_one_v2_api.Commerce.Checkout.Outcome.{
  OnlyStock, IsClaimed, IsQuoted, Placement, priced, create_order-Ends,
}

-- The amounts fit each other: the discount is at most the subtotal of the lines, and what is to be paid
-- is the rest of the subtotal with tax and shipping, up to one unit of the last decimal, since the
-- database rounds the discount and the total each on its own.
abbrev pub AddsUp : PlacedOrder → Type 0
AddsUp o =
    (o.subtotal ≡ subtotal_of o.items)
    × (o.discount_amount ≤ o.subtotal)
    × (o.subtotal + o.tax_amount + o.shipping_amount ≤ o.total_amount + o.discount_amount)
    × (o.total_amount + o.discount_amount ≤ o.subtotal + o.tax_amount + o.shipping_amount + 1)

held :
    (most d shipping : ℕ)
    → let kept = at_most (fine most) d in
      let total = to_column (fine most - kept + 0 + fine shipping) in
      (to_column kept ≤ most)
      × (most + 0 + shipping ≤ total + to_column kept)
      × (total + to_column kept ≤ most + 0 + shipping + 1)
held most d shipping = ground arith

pub placed_order-AddsUp : (d : Desk) (p : Params) (q : Priced) → AddsUp (placed_order d p q)
placed_order-AddsUp d p q =
    let (capped, below, above) =
      held (subtotal_of q.lines) _ (shipping_amount q.evaluation q.shipping) in
    (refl, capped, below, above)

-- whose order it is, and what it is for
abbrev pub IsFor : Params → List CartItemLike → PlacedOrder → Type 0
IsFor p lines o =
    (o.items ≡ lines)
    × (o.status ≡ OrderStatus.pending)
    × (o.customer_id ≡ p.customer_id)
    × (o.session_id ≡ session_of p)

-- the use of the coupon that an order carries: that coupon, found by the code and usable for the lines,
-- has one use more, and every other stands
abbrev pub CountsCoupon : Desk → Params → List CartItemLike → Shop → Option ℕ → Shop → Type 0
CountsCoupon d p lines s none t = (p.coupon_code ≡ none) × (t.coupons ≡ s.coupons)
CountsCoupon d p lines s (some i) t =
    (c : Coupon) × IsClaimed d p.coupon_code (subtotal_of lines) s (some (i, c))
    × ((k : ℕ)
        → find k (t.coupons).rows ≡ (
            if k == i
            then Option.map used_once_more (find k (s.coupons).rows)
            else find k (s.coupons).rows))

claim-CountsCoupon :
    (d : Desk) (p : Params) (lines : List CartItemLike) (s t : Shop) (coupon : Option (ℕ × Coupon))
    → IsClaimed d p.coupon_code (subtotal_of lines) s coupon
    → t.coupons ≡ claim_coupon coupon s.coupons
    → CountsCoupon d p lines s (id_of coupon) t
unfolding increment_usage
claim-CountsCoupon d p lines s t none h e = (h, e)
claim-CountsCoupon d p lines s t (some (i, c)) h e = (
  c,
  h,
  λ k. ap (λ (x : Coupons). find k x.rows) e ∙ find-update k i used_once_more (s.coupons).rows,
)

-- What the order charges: the discount of its coupon and of the promotions that apply, and the shipping
-- that was quoted, which a promotion may waive.
pub record Charges (d : Desk) (p : Params) (lines : List CartItemLike) (s : Shop) (o : PlacedOrder)
    : Type 0 where
  pub coupon : Option (ℕ × Coupon)
  pub claimed : IsClaimed d p.coupon_code (subtotal_of lines) s coupon
  pub discounted :
      o.discount_amount
      ≡ to_column (discount_amount coupon (promotions_for d p lines s) (subtotal_of lines))
  pub price : ℕ
  pub quoted : IsQuoted d p s p.shipping_quote_id price
  pub shipped :
      o.shipping_amount ≡ (if (promotions_for d p lines s).free_shipping then 0 else price)

abbrev pub HasOrder : Desk → Params → List CartItemLike → Shop → ℕ → Shop → Type 0
HasOrder d p lines s id t =
    (o : PlacedOrder) × AddsUp o
    × IsFor p lines o
    × Charges d p lines s o
    × (t.orders ≡ insert id o s.orders)
    × CountsCoupon d p lines s o.coupon t

Placement-order :
    (d : Desk) (p : Params) (cart : Option ℕ) (lines : List CartItemLike) (s : Shop) (id : ℕ)
    (t : Shop)
    → Placement d p cart lines s id t
    → HasOrder d p lines s id t × (t.cart_items ≡ clear_cart cart s.cart_items)
unfolding place_order
Placement-order d p cart lines s id t h =
    let o = placed_order d p (priced d p lines s h.coupon h.shipping) in
    (
      (
        o,
        placed_order-AddsUp d p (priced d p lines s h.coupon h.shipping),
        (refl, refl, refl, refl),
        record {
          coupon = h.coupon;
          claimed = h.claimed;
          discounted = refl;
          price = h.shipping;
          quoted = h.quoted;
          shipped = refl;
        },
        ap (λ (x : Shop). x.orders) h.after
            ∙ ap (λ (x : Shop). insert x.next_id o x.orders) h.only_stock
            ∙ ap (λ k. insert k o s.orders) (sym h.drawn),
        claim-CountsCoupon d p lines s t h.coupon h.claimed (
            ap (λ (x : Shop). x.coupons) h.after
            ∙ ap (λ (x : Shop). claim_coupon h.coupon x.coupons) h.only_stock),
      ),
      ap (λ (x : Shop). x.cart_items) h.after
          ∙ ap (λ (x : Shop). clear_cart cart x.cart_items) h.only_stock,
    )

pub create_order_effect :
    (d : Desk) (p : Params) (cart : Option ℕ) (lines : List CartItemLike) (s : Shop)
    → Ends
        (λ id t. HasOrder d p lines s id t)
        (λ _ t. OnlyStock s t)
        (create_order_from_items d p cart lines s)
create_order_effect d p cart lines s =
    Ends-weaken (λ id t. Placement d p cart lines s id t) _ (λ _ t. OnlyStock s t) _
      (create_order_from_items d p cart lines s) (create_order-Ends d p cart lines s)
      (λ id t h. (Placement-order d p cart lines s id t h).0) (λ _ t h. h)

-- the items of a cart
abbrev pub items_in : ℕ → Table CartItem → List CartItem
items_in cart t = rows_where (λ _ (i : CartItem). i.cart_id == cart) t

items_in-clear :
    (cart k : ℕ) (t : Table CartItem)
    → items_in k (clear_cart (some cart) t) ≡ (if cart == k then [] else items_in k t)
unfolding rows_where delete_many
items_in-clear cart k [] = ground arith
items_in-clear cart k ((j, i) ∷ t) = ground (arith, items_in-clear cart k t)

-- whose cart `cart` is, that it had items, what it ordered, and that it alone is emptied
abbrev pub EmptiesCart : Desk → Params → Shop → ℕ → Shop → Type 0
EmptiesCart d p s id t =
    (cart : ℕ × Cart) × (find_first (is_cart_of d.tenant p.customer_id p.session_id) s.carts
      ≡ some cart)
    × (is_empty (items_of_cart cart.0 s) ≡ false)
    × HasOrder d p (items_of_cart cart.0 s) s id t
    × ((k : ℕ) → items_in k t.cart_items ≡ (if cart.0 == k then [] else items_in k s.cart_items))

abbrev cart_of : Desk → Params → Shop → Option (ℕ × Cart)
cart_of d p s = find_first (is_cart_of d.tenant p.customer_id p.session_id) s.carts

ordered :
    (d : Desk) (p : Params) (s : Shop) (cart : ℕ × Cart)
    → find_first (is_cart_of d.tenant p.customer_id p.session_id) s.carts ≡ some cart
    → is_empty (items_of_cart cart.0 s) ≡ false
    → Ends
        (λ id t. EmptiesCart d p s id t)
        (λ _ t. OnlyStock s t)
        (create_order_from_items d p (some cart.0) (items_of_cart cart.0 s) s)
ordered d p s cart found full =
    Ends-weaken (λ id t. Placement d p (some cart.0) (items_of_cart cart.0 s) s id t)
      (λ id t. EmptiesCart d p s id t) (λ _ t. OnlyStock s t) (λ _ t. OnlyStock s t)
      (create_order_from_items d p (some cart.0) (items_of_cart cart.0 s) s)
      (create_order-Ends d p (some cart.0) (items_of_cart cart.0 s) s)
      (λ id t h.
        let placed = Placement-order d p (some cart.0) (items_of_cart cart.0 s) s id t h in
        (
          cart,
          found,
          full,
          placed.0,
          λ k. ap (items_in k) placed.1 ∙ items_in-clear cart.0 k s.cart_items,
        ))
      (λ _ t h. h)

-- A checkout from the cart takes the cart of the caller: where it succeeds, that cart had items, they are
-- the lines of the order, and this cart is empty afterwards while every other one keeps its items. Where
-- it throws, nothing but stock rows has changed: the cart, the coupons and the promotions stand.
pub checkout_from_cart_effect :
    (d : Desk) (p : Params) (s : Shop)
    → Ends (λ id t. EmptiesCart d p s id t) (λ _ t. OnlyStock s t) (checkout_from_cart d p s)
unfolding checkout_from_cart
checkout_from_cart_effect d p s =
    bind-Ends (λ _ t. (t ≡ s) × (is_some p.customer_id || is_some p.session_id ≡ true)) _ _ _ _ s
      (guard-Ends _ (http 400) (λ _ t. OnlyStock s t) s refl)
      λ _ t e. rw e.0 (
        bind-Ends (λ a t. (t ≡ s) × (a ≡ cart_of d p s)) _ _ _ _ s
          (gets-Ends (cart_of d p) (λ _ t. OnlyStock s t) s)
          λ found t g. rw g.0 (
            bind-Ends (λ a t. (t ≡ s) × (found ≡ some a)) _ _ _ _ s
              (or_throw-Ends found (http 400) (λ _ t. OnlyStock s t) s refl)
              λ cart t f. rw f.0 (
                bind-Ends (λ a t. (t ≡ s) × (a ≡ items_of_cart cart.0 s)) _ _ _ _ s
                  (gets-Ends (items_of_cart cart.0) (λ _ t. OnlyStock s t) s)
                  λ lines t l. rw l.0 (
                    rw l.1 (
                      bind-Ends (λ _ t. (t ≡ s) × (not (is_empty (items_of_cart cart.0 s)) ≡ true))
                        _ _ _ _ s (guard-Ends _ (http 400) (λ _ t. OnlyStock s t) s refl)
                        λ _ t n.
                          rw n.0 (ordered d p s cart (sym g.1 ∙ f.1) (ground (arith, n.1))))))))
