-- ===== src/Commerce/Checkout/Shelves.antt =====
-- The stock rows under checkouts.
use all_in_one_v2_api.Base.{
  ℕ, ◌≡◌, refl, sym, ◌∙◌, Bool, true, false, Option, none, some, List, [], ◌∷◌, arith, Table, find,
  any_row, update_many, IsKeyed, update_many-IsKeyed, find-update_many, find_first-holds, Outcome,
  ok, err, guard, ◌>>=◌, on, put_back, Ends, Bool-cases, Option-cases, inl, inr, state_of,
  Everywhere, Everywhere-update_many, find-of-find_first, Steps, Preorder, step_rules, Steps-pure,
}
use all_in_one_v2_api.Base.Int.{pos, ltb_ℤ}
use all_in_one_v2_api.Inventory.{
  Stock, Place, Warehouse, is_at, is_version, stock_at, write_version, reserve_stock, reserved_more,
}
use all_in_one_v2_api.Inventory.Interleaved.{IsSound, reserved_more-IsSound}
use all_in_one_v2_api.Commerce.Coupons.{Coupon, assert_usable, is_usable}
use all_in_one_v2_api.Commerce.Checkout.Shop.{
  CartItemLike, Shop, Desk, Params, in_warehouse, in_coupons,
}
use all_in_one_v2_api.Commerce.Checkout.Pricing.{check_address, claimed_coupon, quoted_shipping}
use all_in_one_v2_api.Commerce.Checkout.Reserving.{reserve_line, reserve_lines, reserve_somewhere}
use all_in_one_v2_api.Commerce.Checkout.Placing.{Priced, place_order, create_order_from_items}

abbrev stands_at : Stock → Place
stands_at s = record { tenant = s.tenant_id; variant = s.variant_id; location = s.location_id }

-- each place has one row at most
abbrev Alone : Table Stock → Type 0
Alone t =
    (k j : ℕ) (a b : Stock)
    → find k t ≡ some a
    → find j t ≡ some b
    → stands_at a ≡ stands_at b
    → k ≡ j

-- Rows have their own ids and places; never is more reserved than is on hand, and a row shows as
-- available what is left.
pub record IsShelved (t : Table Stock) : Type 0 where
  pub keyed : IsKeyed t
  pub alone : Alone t
  pub sound : Everywhere IsSound t

at_place : (p : Place) (i : ℕ) (s : Stock) → is_at p i s ≡ true → stands_at s ≡ p
at_place p i s h = ground arith

found_before :
    (k : ℕ) (q : ℕ → Stock → Bool) (f : Stock → Stock) (t : Table Stock) (a : Stock)
    → ((s : Stock) → stands_at (f s) ≡ stands_at s)
    → find k (update_many q f t) ≡ some a
    → (b : Stock) × (find k t ≡ some b) × (stands_at b ≡ stands_at a)
found_before k q f t a still h = elim (Option-cases (find k t)) [
  | inl absent ↦ ground (arith, find-update_many k q f t)
  | inr (b, found) ↦ (b, found, ground (arith, find-update_many k q f t, still b))
]

Alone-update_many :
    (q : ℕ → Stock → Bool) (f : Stock → Stock) (t : Table Stock)
    → ((s : Stock) → stands_at (f s) ≡ stands_at s)
    → Alone t
    → Alone (update_many q f t)
Alone-update_many q f t still alone k j a b at_k at_j same =
    let (a', was_a, place_a) = found_before k q f t a still at_k in
    let (b', was_b, place_b) = found_before j q f t b still at_j in
    alone k j a' b' was_a was_b (place_a ∙ same ∙ sym place_b)

reserved-IsShelved :
    (p : Place) (quantity i : ℕ) (s : Stock) (t : Table Stock)
    → stock_at p t ≡ some (i, s)
    → ltb_ℤ s.available (pos quantity) ≡ false
    → IsShelved t
    → IsShelved (update_many (is_version p s.version) (reserved_more s quantity) t)
unfolding stock_at
reserved-IsShelved p quantity i s t found enough h = record {
  keyed = update_many-IsKeyed _ _ t h.keyed;
  alone = Alone-update_many _ (reserved_more s quantity) t (λ x. refl) h.alone;
  sound =
      Everywhere-update_many IsSound _ (reserved_more s quantity) t
        (λ k a at_k current.
          let at_i = find-of-find_first (is_at p) t i s h.keyed found in
          let here = at_place p i s (find_first-holds (is_at p) t i s found) in
          let there = at_place p k a (ground arith) in
          let one : i ≡ k = h.alone i k s a at_i at_k (here ∙ sym there) in
          let row : s ≡ a = ground (arith, rw one at at_i) in
          rw (sym row) (reserved_more-IsSound s quantity (h.sound i s at_i) enough))
        h.sound;
}

write-Ends :
    (p : Place) (version : ℕ) (f : Stock → Stock) (w : Warehouse)
    → IsShelved w.stocks
    → IsShelved (update_many (is_version p version) f w.stocks)
    → Ends (λ _ v. IsShelved v.stocks) (λ _ v. IsShelved v.stocks) (write_version p version f w)
unfolding write_version ◌>>=◌
write-Ends p version f w before after =
    elim (Bool-cases (any_row (is_version p version) w.stocks)) [
      | inl matches ↦ rw matches after
      | inr lost ↦ rw lost before
    ]

reserve_stock-Ends :
    (p : Place) (quantity : ℕ) (w : Warehouse)
    → IsShelved w.stocks
    → Ends (λ _ v. IsShelved v.stocks) (λ _ v. IsShelved v.stocks) (reserve_stock p quantity w)
unfolding reserve_stock ◌>>=◌
reserve_stock-Ends p quantity w h = elim (Option-cases (stock_at p w.stocks)) [
  | inl absent ↦ rw absent h
  | inr (row, found) ↦ elim (Bool-cases (ltb_ℤ (row.1).available (pos quantity))) [
    | inl short ↦ rw (found, short) h
    | inr enough ↦
        rw (found, enough)
          (write-Ends p (row.1).version (reserved_more row.1 quantity) w h
            (reserved-IsShelved p quantity row.0 row.1 w.stocks found enough h))
  ]
]

abbrev KeepsShelves : Shop → Shop → Type 0
KeepsShelves s t = IsShelved (s.warehouse).stocks → IsShelved (t.warehouse).stocks

KeepsShelves-Preorder : Preorder KeepsShelves
KeepsShelves-Preorder = record { stay = λ s h. h; chain = λ s t u p q h. q (p h) }

put_shelves :
    (s : Shop) (r : Outcome Warehouse (Unit {0}))
    → Ends (λ _ v. IsShelved v.stocks) (λ _ v. IsShelved v.stocks) r
    → IsShelved
        ((state_of (put_back (λ w (s : Shop). record s { warehouse = w }) s r)).warehouse).stocks
put_shelves s (ok a w) h = h
put_shelves s (err e w) h = h

reserve_stock-Steps :
    (p : Place) (quantity : ℕ) → Steps KeepsShelves (in_warehouse (reserve_stock p quantity))
unfolding on
reserve_stock-Steps p quantity = record {
  at = λ s h.
      put_shelves s (reserve_stock p quantity s.warehouse)
        (reserve_stock-Ends p quantity s.warehouse h);
}

ruleset shelf_rules = (step_rules, KeepsShelves-Preorder, reserve_stock-Steps)

reserve_somewhere-Steps :
    (d : Desk) (l : CartItemLike) (stocks : Table Stock)
    → Steps KeepsShelves (reserve_somewhere d l stocks)
unfolding reserve_somewhere
reserve_somewhere-Steps d l stocks = search shelf_rules

reserve_line-Steps : (d : Desk) (l : CartItemLike) → Steps KeepsShelves (reserve_line d l)
unfolding reserve_line
reserve_line-Steps d l = search (shelf_rules, reserve_somewhere-Steps)

reserve_lines-Steps :
    (d : Desk) (lines : List CartItemLike) → Steps KeepsShelves (reserve_lines d lines)
unfolding reserve_lines
reserve_lines-Steps d [] = Steps-pure KeepsShelves-Preorder tt
reserve_lines-Steps d (l ∷ lines) =
    search (shelf_rules, reserve_line-Steps d l, reserve_lines-Steps d lines)

check_address-Steps :
    (customer address : Option ℕ) → Steps KeepsShelves (check_address customer address)
unfolding check_address
check_address-Steps customer none = Steps-pure KeepsShelves-Preorder tt
check_address-Steps customer (some address) = search shelf_rules

assert_usable-Steps :
    (now : ℕ) (c : Coupon) (subtotal : Option ℕ)
    → Steps KeepsShelves (in_coupons (assert_usable now c subtotal))
unfolding on assert_usable guard
assert_usable-Steps now c subtotal = record {
  at = λ s. elim (Bool-cases (is_usable now c subtotal)) [
    | inl usable ↦ rw usable (λ h. h)
    | inr unusable ↦ rw unusable (λ h. h)
  ];
}

claimed_coupon-Steps :
    (d : Desk) (code : Option ℕ) (subtotal : ℕ)
    → Steps KeepsShelves (claimed_coupon d code subtotal)
unfolding claimed_coupon
claimed_coupon-Steps d none subtotal = Steps-pure KeepsShelves-Preorder none
claimed_coupon-Steps d (some code) subtotal = search (shelf_rules, assert_usable-Steps)

quoted_shipping-Steps :
    (d : Desk) (p : Params) (quote : Option ℕ) → Steps KeepsShelves (quoted_shipping d p quote)
unfolding quoted_shipping
quoted_shipping-Steps d p none = Steps-pure KeepsShelves-Preorder 0
quoted_shipping-Steps d p (some quote) = search shelf_rules

place_order-Steps :
    (d : Desk) (p : Params) (cart : Option ℕ) (q : Priced)
    → Steps KeepsShelves (place_order d p cart q)
unfolding place_order
place_order-Steps d p cart q = record { at = λ s h. h }

pub create_order-IsShelved :
    (d : Desk) (p : Params) (cart : Option ℕ) (lines : List CartItemLike)
    → Steps KeepsShelves (create_order_from_items d p cart lines)
unfolding create_order_from_items
create_order-IsShelved d p cart lines =
    search
      (
        shelf_rules, check_address-Steps, claimed_coupon-Steps, quoted_shipping-Steps,
        reserve_lines-Steps, place_order-Steps,
      )
      depth 12
