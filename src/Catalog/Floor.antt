-- ===== src/Catalog/Floor.antt =====
-- How low and how high a price can be.
use all_in_one_v2_api.Base.{ℕ, ◌+◌, ◌-◌, ◌*◌, ◌%◌, ◌≤◌, ◌≡◌, true, Option, none, some, arith}
use native.Mathlib.Nat.{mul-le-mul_left}
use all_in_one_v2_api.Catalog.Prices.{
  MarkupType, SaleConfig, PricingRule, finer, discounted, calculate_sale_price, marked_up,
  at_least_profit, calculate_variant_price,
}

marked_up-cost : (kind : MarkupType) (value cost : ℕ) → finer cost ≤ marked_up kind value cost
marked_up-cost MarkupType.percentage value cost = grind arith
marked_up-cost MarkupType.fixed_amount value cost = omega arith

profit-floor :
    (minimum : Option ℕ) (cost price : ℕ)
    → finer cost ≤ price
    → finer cost ≤ at_least_profit minimum cost price
profit-floor none cost price h = h
profit-floor (some profit) cost price h = ground arith

profit-kept :
    (profit cost price : ℕ)
    → finer cost ≤ price
    → finer (cost + profit) ≤ at_least_profit (some profit) cost price
profit-kept profit cost price h = ground arith

-- what the rule promises for a variant
abbrev pub promised : Option ℕ → ℕ
promised none = 0
promised (some profit) = profit

promised-kept :
    (minimum : Option ℕ) (cost price : ℕ)
    → finer cost ≤ price
    → finer (cost + promised minimum) ≤ at_least_profit minimum cost price
promised-kept none cost price h = omega arith
promised-kept (some profit) cost price h = profit-kept profit cost price h

-- A price that an active rule gives, where the cost and the least profit are whole cents: it is at least
-- the cost and the least profit, the profit is what it is above the cost, and it is whole cents.
pub calculate_variant_price-IsAboveCost :
    (cost profit : ℕ) (rule : PricingRule)
    → rule.is_active ≡ true
    → promised rule.minimum_profit ≡ profit * 100
    → let result = calculate_variant_price (cost * 100) (some rule) in
      (cost * 100 + promised rule.minimum_profit ≤ result.calculated_price)
      × (result.profit_margin + cost * 100 ≡ result.calculated_price)
      × (result.calculated_price % 100 ≡ 0)
unfolding calculate_variant_price
calculate_variant_price-IsAboveCost cost profit rule active whole =
    let exact =
      at_least_profit rule.minimum_profit (cost * 100)
        (marked_up rule.markup_type rule.markup_value (cost * 100)) in
    let enough =
      promised-kept rule.minimum_profit (cost * 100)
        (marked_up rule.markup_type rule.markup_value (cost * 100))
        (marked_up-cost rule.markup_type rule.markup_value (cost * 100)) in
    rw active (omega arith, omega arith, omega arith)

discounted-below : (kind : MarkupType) (value price : ℕ) → discounted kind value price ≤ finer price
discounted-below MarkupType.percentage value price =
    let less : 1000000 - value ≤ 1000000 = omega arith in mul-le-mul_left price less
discounted-below MarkupType.fixed_amount value price = omega arith

-- A sale never raises a price of whole cents.
pub calculate_sale_price-IsBelow :
    (price : ℕ) (sale : SaleConfig) → calculate_sale_price (price * 100) sale ≤ price * 100
unfolding calculate_sale_price
calculate_sale_price-IsBelow price sale =
    let below = discounted-below sale.kind sale.value (price * 100) in omega arith
