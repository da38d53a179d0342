-- ===== src/Commerce/Checkout/Quoting.antt =====
-- order.service.ts: getShippingQuote and how it ranks the carriers.
use all_in_one_v2_api.Base.{
  ℕ, ◌+◌, ◌-◌, ◌*◌, Bool, true, false, ◌&&◌, Option, none, some, List, [], ◌∷◌, map, every, is_some,
  get_or, if◌then◌else◌, insert, leb, ltb, sort_by, ok, ◌>>=◌,
}
use all_in_one_v2_api.Commerce.Checkout.Shop.{CartItemLike, QuoteOption, DirectItem, Desk, Desking}
use all_in_one_v2_api.Commerce.Checkout.Placing.{resolve_direct_checkout_items}

-- a carrier and its price, as CJ's calculateFreight answers
pub record Freight : Type 0 where
  pub logistic_name : ℕ
  pub logistic_price : ℕ
  pub logistic_aging : List ℕ

-- The supplier CJ: findVariantMappingsBySupplier, and calculateFreight for the ids and quantities.
pub record FreightDesk : Type 0 where
  pub vid_of : ℕ → Option ℕ
  pub calculate_freight : List (ℕ × ℕ) → List Freight

pub data QuoteSource : Type 0 where
  cj_dropshipping fallback : QuoteSource

-- ShippingQuoteResult
pub record Quote : Type 0 where
  pub quote_id : ℕ
  pub options : List QuoteOption
  pub source : QuoteSource

-- 'Standard Shipping', with the name 0
abbrev pub fallback_shipping_option : QuoteOption
fallback_shipping_option = record { logistic_name = 0; price = 99900; aging = [] }

abbrev pub is_digit : ℕ → Bool
is_digit c = leb 48 c && leb c 57

-- `\d+`, from the number read so far on, and what follows
unfoldable pub read_digits : ℕ → List ℕ → ℕ × List ℕ
read_digits n [] = (n, [])
read_digits n (c ∷ text) =
    let rest = read_digits (n * 10 + (c - 48)) text in if is_digit c then rest else (n, c ∷ text)

-- the first `\d+` in a text
unfoldable pub first_digits : List ℕ → Option (ℕ × List ℕ)
unfolding read_digits
first_digits [] = none
first_digits (c ∷ text) =
    let rest = first_digits text in if is_digit c then some (read_digits 0 (c ∷ text)) else rest

abbrev pub second_or : ℕ → Option (ℕ × List ℕ) → ℕ
second_or n none = n
second_or n (some (m, _)) = m

-- parseMaxDeliveryDays: /(\d+)(?:\D+(\d+))?/, the second number or the only one
unfoldable pub parse_max_delivery_days : List ℕ → Option ℕ
unfolding first_digits
parse_max_delivery_days aging = elim (first_digits aging) [
  | none ↦ none
  | some (n, rest) ↦ some (second_or n (first_digits rest))
]

-- `aQualifies`: within MAX_DEFAULT_DELIVERY_DAYS
abbrev pub is_soon : Option ℕ → Bool
is_soon none = false
is_soon (some days) = leb days 14

abbrev pub arrives_in_time : QuoteOption → Bool
arrives_in_time o = is_soon (parse_max_delivery_days o.aging)

-- the comparison of the sort
abbrev pub comes_before : QuoteOption → QuoteOption → Bool
comes_before a b =
    if arrives_in_time a
    then (if arrives_in_time b then ltb a.price b.price else true)
    else (if arrives_in_time b then false else ltb a.price b.price)

abbrev pub option_of : Freight → QuoteOption
option_of f = record {
  logistic_name = f.logistic_name;
  price = f.logistic_price;
  aging = f.logistic_aging;
}

-- the freight options ranked, or the flat rate if there are none
abbrev pub ranked : List Freight → List QuoteOption
ranked [] = fallback_shipping_option ∷ []
ranked (f ∷ freights) = sort_by comes_before (map option_of (f ∷ freights))

abbrev pub source_of : List Freight → QuoteSource
source_of [] = fallback
source_of (f ∷ freights) = cj_dropshipping

-- the ids that CJ is asked for
abbrev pub products_of : FreightDesk → List CartItemLike → List (ℕ × ℕ)
products_of f lines =
    map (λ (l : CartItemLike). (get_or (f.vid_of l.product_variant_id) 0, l.quantity)) lines

-- allMapped
abbrev pub all_mapped : FreightDesk → List CartItemLike → Bool
all_mapped f lines = every (λ (l : CartItemLike). is_some (f.vid_of l.product_variant_id)) lines

-- what CJ answers; nothing is asked for where a line is not mapped
abbrev pub freights_for : FreightDesk → List CartItemLike → List Freight
freights_for f lines = if all_mapped f lines then f.calculate_freight (products_of f lines) else []

-- CacheUtil.set for the quote, under an id that is drawn
unfoldable pub store_quote : Desk → List Freight → Desking Quote
unfolding sort_by
store_quote d freights s =
    let quote : Quote = record {
      quote_id = s.next_id;
      options = ranked freights;
      source = source_of freights;
    } in
    ok quote (record s {
      quotes =
          if d.cache_up then insert s.next_id (d.tenant, ranked freights) s.quotes else s.quotes;
      next_id = s.next_id + 1;
    })

-- getShippingQuote
unfoldable pub get_shipping_quote : Desk → FreightDesk → List DirectItem → Desking Quote
get_shipping_quote d f items = do
  lines ← resolve_direct_checkout_items d items
  store_quote d (freights_for f lines)
