-- ===== src/Commerce/Checkout/Leftover.antt =====
-- What a checkout that fails half-way leaves behind.
use all_in_one_v2_api.Base.{
  ℕ, ◌≡◌, refl, false, Option, none, List, [], ◌∷◌, ◌++◌, http, Outcome, ok, err, ◌>>=◌, and_then,
}
use all_in_one_v2_api.Commerce.Checkout.Shop.{CartItemLike, Shop, Desk, Params}
use all_in_one_v2_api.Commerce.Checkout.Pricing.{check_address, claimed_coupon, quoted_shipping}
use all_in_one_v2_api.Commerce.Checkout.Reserving.{is_available, reserve_line, reserve_lines}
use all_in_one_v2_api.Commerce.Checkout.Placing.{create_order_from_items}

reserve_line-refused :
    (d : Desk) (l : CartItemLike) (s : Shop)
    → is_available d l (s.warehouse).stocks ≡ false
    → reserve_line d l s ≡ err (http 400) s
unfolding reserve_line ◌>>=◌
reserve_line-refused d l s h = rw h refl

split_at :
    (d : Desk) (l : CartItemLike) (rest after : List CartItemLike) (u : Shop)
    (r : Outcome Shop (Unit {0}))
    → ((t : Shop)
        → reserve_lines d rest t ≡ ok tt u
        → reserve_lines d (rest ++ l ∷ after) t ≡ err (http 400) u)
    → and_then r (λ _. reserve_lines d rest) ≡ ok tt u
    → and_then r (λ _. reserve_lines d (rest ++ l ∷ after)) ≡ err (http 400) u
split_at d l rest after u (ok a t) ih h = ih t h
split_at d l rest after u (err e t) ih h = cc

reserve_lines-stop :
    (d : Desk) (before : List CartItemLike) (l : CartItemLike) (after : List CartItemLike)
    (s u : Shop)
    → reserve_lines d before s ≡ ok tt u
    → is_available d l (u.warehouse).stocks ≡ false
    → reserve_lines d (before ++ l ∷ after) s ≡ err (http 400) u
unfolding reserve_lines ◌>>=◌
reserve_lines-stop d [] l after s u h short =
    let same : s ≡ u = cc in rw same (rw (reserve_line-refused d l u short) refl)
reserve_lines-stop d (b ∷ before) l after s u h short =
    split_at d l before after u (reserve_line d b s)
      (λ t g. reserve_lines-stop d before l after t u g short) h

-- A checkout without coupon, address and quote that comes to a line with too little stock throws 400 in
-- the very state that the reservations of the lines before it made: they are not taken back.
pub create_order_leaves_reservations :
    (d : Desk) (p : Params) (cart : Option ℕ) (before : List CartItemLike) (l : CartItemLike)
    (after : List CartItemLike) (s u : Shop)
    → p.shipping_address_id ≡ none
    → p.coupon_code ≡ none
    → p.shipping_quote_id ≡ none
    → reserve_lines d before s ≡ ok tt u
    → is_available d l (u.warehouse).stocks ≡ false
    → create_order_from_items d p cart (before ++ l ∷ after) s ≡ err (http 400) u
unfolding create_order_from_items check_address claimed_coupon quoted_shipping ◌>>=◌
create_order_leaves_reservations d p cart before l after s u address coupon quote reserved short =
    rw (address, coupon, quote) (rw (reserve_lines-stop d before l after s u reserved short) refl)
