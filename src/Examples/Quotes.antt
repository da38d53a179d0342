-- ===== src/Examples/Quotes.antt =====
-- Two carriers: a cheap one that takes six to twenty days, and a dear one that takes six to nine.
use all_in_one_v2_api.Base.{Ends, ◌≡◌, refl, none, some, List, [], ◌∷◌, ok, insert, ◌>>=◌, sort_by}
use all_in_one_v2_api.Commerce.Checkout.Shop.{DirectItem, Shop, Params}
use all_in_one_v2_api.Commerce.Checkout.Placing.{
  resolve_direct_checkout_items, create_order_from_items,
}
use all_in_one_v2_api.Commerce.Checkout.Quoting.{
  Freight, FreightDesk, Quote, QuoteSource, ranked, store_quote, get_shipping_quote, option_of,
  parse_max_delivery_days,
}
use all_in_one_v2_api.Commerce.Checkout.Quoted.{
  HasDefault, ranked_default, ChargesShipping, quoted_is_charged,
}
use all_in_one_v2_api.Examples.Checkouts.{desk, market, plain_shopper, two_shirts}

-- "6-20" and "6-9"
abbrev slow : Freight
slow = record {
  logistic_name = 1;
  logistic_price = 20000;
  logistic_aging = b'6' ∷ b'-' ∷ b'2' ∷ b'0' ∷ [];
}

abbrev quick : Freight
quick = record {
  logistic_name = 2;
  logistic_price = 50000;
  logistic_aging = b'6' ∷ b'-' ∷ b'9' ∷ [];
}

abbrev two_carriers : FreightDesk
two_carriers = record { vid_of = λ v. some v; calculate_freight = λ products. slow ∷ quick ∷ [] }

abbrev one_shirt : List DirectItem
one_shirt = record { product_id = 51; size = none; color = none; quantity = 1 } ∷ []

slow_days : parse_max_delivery_days (b'6' ∷ b'-' ∷ b'2' ∷ b'0' ∷ []) ≡ some 20
unfolding parse_max_delivery_days
slow_days = refl

quick_first : ranked (slow ∷ quick ∷ []) ≡ option_of quick ∷ option_of slow ∷ []
unfolding sort_by parse_max_delivery_days
quick_first = refl

ranked_default_example : HasDefault (slow ∷ quick ∷ []) (ranked (slow ∷ quick ∷ []))
ranked_default_example = ranked_default slow (quick ∷ [])

abbrev quote : Quote
quote = record {
  quote_id = 100;
  options = option_of quick ∷ option_of slow ∷ [];
  source = QuoteSource.cj_dropshipping;
}

abbrev quoted_market : Shop
quoted_market = record market { quotes = (100, (1, quote.options)) ∷ []; next_id = 101 }

quoted_market_lem : get_shipping_quote desk two_carriers one_shirt market ≡ ok quote quoted_market
unfolding get_shipping_quote resolve_direct_checkout_items store_quote sort_by
    parse_max_delivery_days insert ◌>>=◌
quoted_market_lem = refl

-- the shopper names the quote and takes its first option
abbrev quoted_shopper : Params
quoted_shopper = record plain_shopper { shipping_quote_id = some 100 }

quoted_is_charged_example :
    Ends
      (λ id u. ChargesShipping desk quoted_shopper (two_shirts ∷ []) quoted_market 50000 id u)
      (λ _ u. u.orders ≡ quoted_market.orders)
      (create_order_from_items desk quoted_shopper none (two_shirts ∷ []) quoted_market)
quoted_is_charged_example =
    quoted_is_charged desk two_carriers quoted_shopper one_shirt none (two_shirts ∷ []) market
      quoted_market quote (option_of quick) refl quoted_market_lem refl refl
