-- ===== src/Catalog/Prices.antt =====
-- src/utils/pricing.util.ts. Amounts and percentages are numbers of ten-thousandths, the scale of the
-- columns; a price before it is rounded is a number of 10^-10. They are not negative, as the routes ask.
use all_in_one_v2_api.Base.{
  ℕ, ◌+◌, ◌-◌, ◌*◌, ◌/◌, Bool, ◌&&◌, Option, none, some, leb, ltb, if◌then◌else◌,
}

pub data MarkupType : Type 0 where
  percentage fixed_amount : MarkupType

-- PricingRuleSaleConfig; `none` is a text that is no date
pub record SaleConfig : Type 0 where
  pub kind : MarkupType
  pub value : ℕ
  pub starts_at : Option ℕ
  pub ends_at : Option ℕ

-- the columns of CatalogPricingRule
pub record PricingRule : Type 0 where
  pub tenant_id : ℕ
  pub name : ℕ
  pub markup_type : MarkupType
  pub markup_value : ℕ
  pub minimum_profit : Option ℕ
  pub is_active : Bool
  pub is_default : Bool
  pub sale_type : Option MarkupType
  pub sale_value : Option ℕ
  pub sale_starts_at : Option ℕ
  pub sale_ends_at : Option ℕ

-- `now >= start && now <= end`, which a NaN fails
abbrev pub is_sale_currently_active : ℕ → SaleConfig → Bool
is_sale_currently_active now sale = opened sale.starts_at && lasts sale.ends_at
  where
    opened : Option ℕ → Bool
    opened none = Bool.false
    opened (some start) = leb start now

    lasts : Option ℕ → Bool
    lasts none = Bool.false
    lasts (some end') = leb now end'

-- `Math.round((x + Number.EPSILON) * 100) / 100`: halves of a cent go up
abbrev pub to_cents : ℕ → ℕ
to_cents x = (x + 50000000) / 100000000 * 100

abbrev pub finer : ℕ → ℕ
finer x = x * 1000000

-- `discounted`, or 0 where it is negative
abbrev pub discounted : MarkupType → ℕ → ℕ → ℕ
discounted MarkupType.percentage value price = price * (1000000 - value)
discounted MarkupType.fixed_amount value price = finer (price - value)

-- calculateSalePrice
unfoldable pub calculate_sale_price : ℕ → SaleConfig → ℕ
calculate_sale_price regular sale = to_cents (discounted sale.kind sale.value regular)

-- PricingCalculationResult without `baseCost` and `appliedRuleId`
pub record PricingResult : Type 0 where
  pub calculated_price : ℕ
  pub profit_margin : ℕ

abbrev pub marked_up : MarkupType → ℕ → ℕ → ℕ
marked_up MarkupType.percentage value cost = cost * (1000000 + value)
marked_up MarkupType.fixed_amount value cost = finer (cost + value)

-- `minimumProfit`, where it is set
abbrev pub at_least_profit : Option ℕ → ℕ → ℕ → ℕ
at_least_profit none cost price = price
at_least_profit (some profit) cost price =
    if ltb (price - finer cost) (finer profit) then finer (cost + profit) else price

abbrev pub unchanged_price : ℕ → PricingResult
unchanged_price cost = record { calculated_price = cost; profit_margin = 0 }

-- calculateVariantPrice
unfoldable pub calculate_variant_price : ℕ → Option PricingRule → PricingResult
calculate_variant_price cost none = unchanged_price cost
calculate_variant_price cost (some rule) =
    let price = to_cents (
      at_least_profit rule.minimum_profit cost
        (marked_up rule.markup_type rule.markup_value cost)) in
    if rule.is_active
    then record { calculated_price = price; profit_margin = to_cents (finer (price - cost)) }
    else unchanged_price cost
