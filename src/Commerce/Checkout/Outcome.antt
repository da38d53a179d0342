-- ===== src/Commerce/Checkout/Outcome.antt =====
-- How createOrderFromItems ends: the state that it leaves when it creates the order, and when it throws.
use all_in_one_v2_api.Base.{
  ℕ, ◌≡◌, refl, ap, true, Option, none, some, List, [], ◌∷◌, Table, find, Outcome, ok, err, Handler,
  pure, ◌>>=◌, on, put_back, Ends, bind-Ends, gets-Ends, Bool-cases, Option-cases, inl, inr, Steps,
  Keeps, Keeps-Preorder, step_rules, Steps-pure, Preorder, state_of,
}
use all_in_one_v2_api.Inventory.{Warehouse, Stock}
use all_in_one_v2_api.Commerce.Coupons.{Coupon, find_by_code, is_usable, assert_usable}
use all_in_one_v2_api.Commerce.Checkout.Shop.{
  CartItemLike, Shop, Desk, Params, QuoteOption, in_warehouse,
}
use all_in_one_v2_api.Commerce.Checkout.Pricing.{
  subtotal_of, may_deliver, check_address, claimed_coupon, promotions_for, quoted_shipping,
  pick_option, cached,
}
use all_in_one_v2_api.Commerce.Checkout.Reserving.{reserve_line, reserve_lines, reserve_somewhere}
use all_in_one_v2_api.Commerce.Checkout.Placing.{Priced, place_order, create_order_from_items}

abbrev no_stock : Warehouse
no_stock = record { stocks = []; next_id = 0 }

-- the tables without the stock rows
abbrev pub apart_from_stock : Shop → Shop
apart_from_stock s = record s { warehouse = no_stock }

-- Only stock rows differ.
abbrev pub OnlyStock : Shop → Shop → Type 0
OnlyStock = Keeps apart_from_stock

OnlyStock-Preorder : Preorder OnlyStock
OnlyStock-Preorder = Keeps-Preorder apart_from_stock

put_stock :
    {A : Type 0} (s : Shop) (r : Outcome Warehouse A)
    → OnlyStock s (state_of (put_back (λ w (s : Shop). record s { warehouse = w }) s r))
put_stock s (ok a w) = refl
put_stock s (err e w) = refl

in_warehouse-Steps : {A : Type 0} (m : Handler Warehouse A) → Steps OnlyStock (in_warehouse m)
unfolding on
in_warehouse-Steps m = record { at = λ s. put_stock s (m s.warehouse) }

ruleset stock_rules = (step_rules, OnlyStock-Preorder, in_warehouse-Steps)

reserve_somewhere-Steps :
    (d : Desk) (l : CartItemLike) (stocks : Table Stock)
    → Steps OnlyStock (reserve_somewhere d l stocks)
unfolding reserve_somewhere
reserve_somewhere-Steps d l stocks = search stock_rules

reserve_line-Steps : (d : Desk) (l : CartItemLike) → Steps OnlyStock (reserve_line d l)
unfolding reserve_line
reserve_line-Steps d l = search (stock_rules, reserve_somewhere-Steps)

reserve_lines-Steps :
    (d : Desk) (lines : List CartItemLike) → Steps OnlyStock (reserve_lines d lines)
unfolding reserve_lines
reserve_lines-Steps d [] = Steps-pure OnlyStock-Preorder tt
reserve_lines-Steps d (l ∷ lines) =
    search (stock_rules, reserve_line-Steps d l, reserve_lines-Steps d lines)

check_address-Ends :
    (customer address : Option ℕ) (s : Shop)
    → Ends (λ _ t. t ≡ s) (λ _ t. OnlyStock s t) (check_address customer address s)
unfolding check_address pure ◌>>=◌
check_address-Ends customer none s = refl
check_address-Ends customer (some address) s =
    elim (Bool-cases (may_deliver customer (find address s.addresses))) [
      | inl yes' ↦ rw yes' refl
      | inr no' ↦ rw no' refl
    ]

-- a coupon that was found by its code, and is usable for the subtotal
abbrev pub IsClaimed : Desk → Option ℕ → ℕ → Shop → Option (ℕ × Coupon) → Type 0
IsClaimed d code subtotal s none = code ≡ none
IsClaimed d code subtotal s (some (i, c)) =
    (k : ℕ) × (code ≡ some k)
    × (find_by_code d.tenant k s.coupons ≡ some (i, c))
    × (is_usable d.now c (some subtotal) ≡ true)

claimed_coupon-Ends :
    (d : Desk) (code : Option ℕ) (subtotal : ℕ) (s : Shop)
    → Ends
        (λ c t. (t ≡ s) × IsClaimed d code subtotal s c)
        (λ _ t. OnlyStock s t)
        (claimed_coupon d code subtotal s)
unfolding claimed_coupon assert_usable on ◌>>=◌
claimed_coupon-Ends d none subtotal s = (refl, refl)
claimed_coupon-Ends d (some code) subtotal s =
    elim (Option-cases (find_by_code d.tenant code s.coupons)) [
      | inl absent ↦ rw absent refl
      | inr (row, found) ↦ elim (Bool-cases (is_usable d.now row.1 (some subtotal))) [
        | inl usable ↦ rw (found, usable) (refl, (code, refl, found, usable))
        | inr unusable ↦ rw (found, unusable) refl
      ]
    ]

-- the price of the option that was picked from the quote, or nothing without a quote
abbrev pub IsQuoted : Desk → Params → Shop → Option ℕ → ℕ → Type 0
IsQuoted d p s none price = price ≡ 0
IsQuoted d p s (some quote) price =
    (o : QuoteOption) × (pick_option (cached d quote s) p.shipping_logistic_name ≡ some o)
    × (price ≡ o.price)

quoted_shipping-Ends :
    (d : Desk) (p : Params) (quote : Option ℕ) (s : Shop)
    → Ends
        (λ price t. (t ≡ s) × IsQuoted d p s quote price)
        (λ _ t. OnlyStock s t)
        (quoted_shipping d p quote s)
unfolding quoted_shipping ◌>>=◌
quoted_shipping-Ends d p none s = (refl, refl)
quoted_shipping-Ends d p (some quote) s =
    elim (Option-cases (pick_option (cached d quote s) p.shipping_logistic_name)) [
      | inl absent ↦ rw absent refl
      | inr (option, found) ↦ rw found (refl, (option, refl, refl))
    ]

-- what the transaction is given, where the promotions were evaluated at the start
abbrev pub priced : Desk → Params → List CartItemLike → Shop → Option (ℕ × Coupon) → ℕ → Priced
priced d p lines s coupon shipping = record {
  lines = lines;
  coupon = coupon;
  evaluation = promotions_for d p lines s;
  shipping = shipping;
}

-- what the transaction was given, and what stands after it
pub record Placement (d : Desk) (p : Params) (cart : Option ℕ) (lines : List CartItemLike)
    (s : Shop) (id : ℕ) (t : Shop) : Type 0 where
  pub coupon : Option (ℕ × Coupon)
  pub shipping : ℕ
  pub reserved : Shop
  pub claimed : IsClaimed d p.coupon_code (subtotal_of lines) s coupon
  pub quoted : IsQuoted d p s p.shipping_quote_id shipping
  pub only_stock : OnlyStock s reserved
  pub at_reservation : reserve_lines d lines s ≡ ok tt reserved
  pub drawn : id ≡ s.next_id
  pub after : t ≡ state_of (place_order d p cart (priced d p lines s coupon shipping) reserved)

reserve_lines-Ends :
    (d : Desk) (lines : List CartItemLike) (s : Shop)
    → Ends
        (λ _ t. OnlyStock s t × (reserve_lines d lines s ≡ ok tt t))
        (λ _ t. OnlyStock s t)
        (reserve_lines d lines s)
reserve_lines-Ends d lines s =
    reserved (reserve_lines d lines s) ((reserve_lines-Steps d lines).at s)
  where
    reserved :
        (r : Outcome Shop (Unit {0}))
        → OnlyStock s (state_of r)
        → Ends (λ _ t. OnlyStock s t × (r ≡ ok tt t)) (λ _ t. OnlyStock s t) r
    reserved (ok a t) h = (h, refl)
    reserved (err e t) h = h

placed :
    (d : Desk) (p : Params) (cart : Option ℕ) (lines : List CartItemLike) (s u : Shop)
    (coupon : Option (ℕ × Coupon)) (shipping : ℕ)
    → IsClaimed d p.coupon_code (subtotal_of lines) s coupon
    → IsQuoted d p s p.shipping_quote_id shipping
    → OnlyStock s u
    → reserve_lines d lines s ≡ ok tt u
    → Ends
        (λ id t. Placement d p cart lines s id t)
        (λ _ t. OnlyStock s t)
        (place_order d p cart (priced d p lines s coupon shipping) u)
unfolding place_order
placed d p cart lines s u coupon shipping claimed quoted only_stock at_reservation = record {
  coupon = coupon;
  shipping = shipping;
  reserved = u;
  claimed = claimed;
  quoted = quoted;
  only_stock = only_stock;
  at_reservation = at_reservation;
  drawn = ap (λ (x : Shop). x.next_id) only_stock;
  after = refl;
}

-- An order is placed on the stock that was reserved, or nothing but stock rows has changed.
pub create_order-Ends :
    (d : Desk) (p : Params) (cart : Option ℕ) (lines : List CartItemLike) (s : Shop)
    → Ends
        (λ id t. Placement d p cart lines s id t)
        (λ _ t. OnlyStock s t)
        (create_order_from_items d p cart lines s)
unfolding create_order_from_items
create_order-Ends d p cart lines s =
    bind-Ends (λ _ t. t ≡ s) _ _ _ _ s (check_address-Ends p.customer_id p.shipping_address_id s)
      λ _ t e. rw e (
        bind-Ends (λ c t. (t ≡ s) × IsClaimed d p.coupon_code (subtotal_of lines) s c) _ _ _ _ s
          (claimed_coupon-Ends d p.coupon_code (subtotal_of lines) s)
          λ coupon t h. rw h.0 (
            bind-Ends (λ a t. (t ≡ s) × (a ≡ promotions_for d p lines s)) _ _ _ _ s
              (gets-Ends (promotions_for d p lines) _ s)
              λ evaluation t g. rw g.0 (
                rw g.1 (
                  bind-Ends (λ price t. (t ≡ s) × IsQuoted d p s p.shipping_quote_id price) _ _ _ _
                    s (quoted_shipping-Ends d p p.shipping_quote_id s)
                    λ shipping t e. rw e.0 (
                      bind-Ends (λ _ t. OnlyStock s t × (reserve_lines d lines s ≡ ok tt t)) _ _ _ _
                        s (reserve_lines-Ends d lines s)
                        λ _ u r. placed d p cart lines s u coupon shipping h.1 e.1 r.0 r.1)))))
