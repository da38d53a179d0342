-- ===== src/Commerce/Checkout/Quoted.antt =====
-- The carrier that a quote offers first, and the price that the checkout then charges.
use all_in_one_v2_api.Base.{
  ℕ, ◌≤◌, ◌<◌, ◌⊎◌, ◌≡◌, refl, Bool, true, false, some, List, [], ◌∷◌, arith, any, All, map,
  if◌then◌else◌, find, insert, any-sort_by, IsFirst, IsSorted, IsRanking, sort_by-IsSorted,
  Bool-cases, inl, inr, ==_refl, ok, Outcome, ◌>>=◌, Ends, bind-Ends, Ends-any, Ends-weaken, Option,
  ap, sym, ◌∙◌,
}
use all_in_one_v2_api.Commerce.Checkout.Shop.{
  Shop, QuoteOption, Desk, Params, DirectItem, CartItemLike, PlacedOrder,
}
use all_in_one_v2_api.Commerce.Checkout.Pricing.{cached, pick_option, promotions_for}
use all_in_one_v2_api.Commerce.Checkout.Placing.{
  resolve_direct_checkout_items, create_order_from_items,
}
use all_in_one_v2_api.Commerce.Checkout.Outcome.{OnlyStock, IsQuoted}
use all_in_one_v2_api.Commerce.Checkout.Effect.{HasOrder, create_order_effect}
use all_in_one_v2_api.Commerce.Checkout.Quoting.{
  Freight, FreightDesk, Quote, arrives_in_time, comes_before, option_of, ranked, freights_for,
  store_quote, get_shipping_quote,
}

comes_before-IsRanking : IsRanking comes_before
comes_before-IsRanking = record {
  not_both = λ x y h. ground arith;
  through = λ x y z h g. ground arith;
}

abbrev pub lateness : QuoteOption → ℕ
lateness o = if arrives_in_time o then 0 else 1

-- `x` arrives in time where `y` does not, or both do or both do not and `x` costs no more.
abbrev pub IsPreferred : QuoteOption → QuoteOption → Type 0
IsPreferred x y = (lateness x < lateness y) ⊎ ((lateness x ≡ lateness y) × (x.price ≤ y.price))

preferred : (x y : QuoteOption) → comes_before y x ≡ false → IsPreferred x y
preferred x y h = elim (Bool-cases (arrives_in_time x)) [
  | inl soon ↦ elim (Bool-cases (arrives_in_time y)) [
    | inl soon' ↦ inr (rw (soon, soon') refl, ground arith)
    | inr late ↦ inl (rw (soon, late) (omega arith))
  ]
  | inr late ↦ elim (Bool-cases (arrives_in_time y)) [
    | inl soon ↦ let wrong : true ≡ false = rw (late, soon) at h in cc
    | inr late' ↦ inr (rw (late, late') refl, ground arith)
  ]
]

first-IsPreferred :
    (x : QuoteOption) (ys : List QuoteOption) → IsFirst comes_before x ys → All (IsPreferred x) ys
first-IsPreferred x [] h = tt
first-IsPreferred x (y ∷ ys) h = (preferred x y h.0, first-IsPreferred x ys h.1)

-- what is offered first, and the options after it
abbrev pub HasDefault : List Freight → List QuoteOption → Type 0
HasDefault freights options =
    (x : QuoteOption) × (rest : List QuoteOption) × (options ≡ x ∷ rest)
    × All (IsPreferred x) rest
    × ((p : QuoteOption → Bool) → any p (x ∷ rest) ≡ any p (map option_of freights))

headed :
    (freights : List Freight) (options : List QuoteOption)
    → IsSorted comes_before options
    → ((p : QuoteOption → Bool) → any p options ≡ any p (map option_of freights))
    → any (λ _. true) options ≡ true
    → HasDefault freights options
headed freights [] h same full = cc
headed freights (x ∷ rest) h same full = (x, rest, refl, first-IsPreferred x rest h.0, same)

-- Whatever carriers CJ names, none is dropped, and the first option is preferred to every other: it
-- arrives within two weeks if any does, and costs no more than any other that arrives as soon.
pub ranked_default :
    (f : Freight) (freights : List Freight) → HasDefault (f ∷ freights) (ranked (f ∷ freights))
ranked_default f freights =
    let options = map option_of (f ∷ freights) in
    headed (f ∷ freights) (ranked (f ∷ freights))
      (sort_by-IsSorted comes_before comes_before-IsRanking options)
      (λ p. any-sort_by p comes_before options) (any-sort_by (λ _. true) comes_before options)

-- what the cache holds once the quote is stored
abbrev IsStored : Desk → Quote → Shop → Type 0
IsStored d q t = cached d q.quote_id t ≡ some q.options

store_quote-IsStored :
    (d : Desk) (freights : List Freight) (u : Shop)
    → d.cache_up ≡ true
    → Ends (λ q t. IsStored d q t) (λ _ _. Unit {0}) (store_quote d freights u)
unfolding store_quote find insert
store_quote-IsStored d freights u up = rw (up, ==_refl u.next_id, ==_refl d.tenant) refl

returned :
    (d : Desk) (r : Outcome Shop Quote) (q : Quote) (t : Shop)
    → r ≡ ok q t
    → Ends (λ q t. IsStored d q t) (λ _ _. Unit {0}) r
    → IsStored d q t
returned d r q t e h = rw e at h

-- what is quoted is the price of the option that was picked
quoted_price :
    (d : Desk) (p : Params) (t : Shop) (quote : Quote) (o : QuoteOption) (price : ℕ)
    → IsStored d quote t
    → pick_option (some quote.options) p.shipping_logistic_name ≡ some o
    → IsQuoted d p t (some quote.quote_id) price
    → price ≡ o.price
quoted_price d p t quote o price stored picked (x, found, same) =
    let again : pick_option (some quote.options) p.shipping_logistic_name ≡ some x =
      rw stored at found in
    let one : o ≡ x = ground (arith, picked, again) in
    same ∙ ap (λ (y : QuoteOption). y.price) (sym one)

-- the order that was created, and the shipping that it charges
abbrev pub ChargesShipping : Desk → Params → List CartItemLike → Shop → ℕ → ℕ → Shop → Type 0
ChargesShipping d p lines t price id u =
    (x : PlacedOrder) × (u.orders ≡ insert id x t.orders)
    × (x.shipping_amount ≡ (if (promotions_for d p lines t).free_shipping then 0 else price))

-- While the cache is up: where a quote was just given, a checkout that names it and picks an option, by
-- name or as the first one, creates an order that charges for shipping what the quote says of this
-- option, or nothing if a promotion that applies waives the shipping; or it creates no order.
pub quoted_is_charged :
    (d : Desk) (f : FreightDesk) (p : Params) (items : List DirectItem) (cart : Option ℕ)
    (lines : List CartItemLike) (s t : Shop) (quote : Quote) (o : QuoteOption)
    → d.cache_up ≡ true
    → get_shipping_quote d f items s ≡ ok quote t
    → pick_option (some quote.options) p.shipping_logistic_name ≡ some o
    → p.shipping_quote_id ≡ some quote.quote_id
    → Ends
        (λ id u. ChargesShipping d p lines t o.price id u)
        (λ _ u. u.orders ≡ t.orders)
        (create_order_from_items d p cart lines t)
unfolding get_shipping_quote ◌>>=◌
quoted_is_charged d f p items cart lines s t quote o up quoted picked named =
    let stored : IsStored d quote t = returned d (get_shipping_quote d f items s) quote t quoted (
      bind-Ends (λ _ _. Unit {0}) (λ q t. IsStored d q t) (λ _ _. Unit {0})
        (resolve_direct_checkout_items d items) _ s
        (Ends-any (resolve_direct_checkout_items d items s))
        λ lines u _. store_quote-IsStored d (freights_for f lines) u up) in
    Ends-weaken (λ id u. HasOrder d p lines t id u) _ (λ _ u. OnlyStock t u)
      (λ _ u. u.orders ≡ t.orders) (create_order_from_items d p cart lines t)
      (create_order_effect d p cart lines t)
      (λ id u (x, sums, whose, charges, orders, counted).
        let price : charges.price ≡ o.price =
          quoted_price d p t quote o charges.price stored picked (rw named at charges.quoted) in
        (x, orders, rw price at charges.shipped))
      (λ _ u h. ap (λ (y : Shop). y.orders) h)
