-- ===== src/Examples/Prices.antt =====
-- A tenant with two pricing rules, three products and a variant.
use all_in_one_v2_api.Base.{
  ◌+◌, ◌≤◌, ◌≡◌, refl, ◌%◌, ◌*◌, true, false, none, some, List, [], ◌∷◌, arith, count_where, Ends,
  http, ==_iff, state_of, find, find_first, update_many, rows_where, ◌>>=◌, gets, modify, or_throw,
  pure,
}
use all_in_one_v2_api.Catalog.Prices.{
  MarkupType, PricingRule, calculate_variant_price, calculate_sale_price,
}
use all_in_one_v2_api.Catalog.Floor.{promised, calculate_variant_price-IsAboveCost}
use all_in_one_v2_api.Catalog.Rules.{
  Product, ProductVariant, CatalogStore, Clock, recalculate_product_pricing, recalculate_all,
  recalculate_rule, ids_where,
}
use all_in_one_v2_api.Catalog.Editing.{
  RuleRequest, create, edit, remove, make_default, serve_rules, apply_to_all, swap_default,
}
use all_in_one_v2_api.Catalog.Defaults.{HasOneDefault}
use all_in_one_v2_api.Catalog.Requests.{serve_rules-HasOneDefault}
use all_in_one_v2_api.Catalog.Swap.{IsSwapped, apply_to_all_effect}

-- 30 percent, at least two units of profit
abbrev a_rule : PricingRule
a_rule = record {
  tenant_id = 1;
  name = 10;
  markup_type = MarkupType.percentage;
  markup_value = 300000;
  minimum_profit = some 20000;
  is_active = true;
  is_default = true;
  sale_type = none;
  sale_value = none;
  sale_starts_at = none;
  sale_ends_at = none;
}

-- 50 percent and a sale of 10 percent
abbrev other_rule : PricingRule
other_rule = record a_rule {
  name = 11;
  markup_value = 500000;
  is_default = false;
  sale_type = some MarkupType.percentage;
  sale_value = some 100000;
  sale_starts_at = some 5;
  sale_ends_at = some 50;
}

abbrev a_product : Product
a_product = record {
  tenant_id = 1;
  pricing_rule_id = none;
  price = none;
  sale_price = none;
  deleted = false;
}

abbrev shirt : ProductVariant
shirt = record {
  tenant_id = 1;
  product_id = 31;
  price = 50000;
  base_cost = some 100000;
  calculated_price = none;
  deleted = false;
}

abbrev shelf : CatalogStore
shelf = record {
  rules = (2, other_rule) ∷ (1, a_rule) ∷ [];
  products =
      (31, a_product)
      ∷ (32, record a_product { pricing_rule_id = some 1 })
      ∷ (33, record a_product { deleted = true })
      ∷ [];
  variants = (41, shirt) ∷ [];
  next_id = 50;
}

abbrev clock : Clock
clock = record { tenant = 1; now = 7 }

shelf-HasOneDefault : HasOneDefault shelf.rules shelf.next_id
unfolding count_where
shelf-HasOneDefault = record {
  one_default = λ tenant. ground arith;
  once = λ tenant id. ground (arith, ==_iff 1 id, ==_iff 2 id);
  undrawn = λ tenant id far. ground (arith, ==_iff 1 id, ==_iff 2 id);
}

apply_to_all_effect_example :
    Ends
      (λ n t. IsSwapped clock 2 shelf n t)
      (λ e t. (e ≡ http 404) × (t ≡ shelf))
      (apply_to_all clock 2 shelf)
apply_to_all_effect_example = apply_to_all_effect clock 2 shelf shelf-HasOneDefault

abbrev requests : List RuleRequest
requests =
    create clock (record { name = 12; markup_value = 0; minimum_profit = none; sale = none })
    ∷ edit clock 2 (record {
      name = none;
      markup_value = some 100000;
      minimum_profit = none;
      sale = some none;
    })
    ∷ make_default clock 2
    ∷ remove clock 1
    ∷ []

serve_rules-HasOneDefault_example :
    HasOneDefault (serve_rules requests shelf).rules (serve_rules requests shelf).next_id
serve_rules-HasOneDefault_example = serve_rules-HasOneDefault requests shelf shelf-HasOneDefault

calculate_variant_price-IsAboveCost_example :
    let result = calculate_variant_price (1000 * 100) (some a_rule) in
    (1000 * 100 + promised (some 20000) ≤ result.calculated_price)
    × (result.profit_margin + 1000 * 100 ≡ result.calculated_price)
    × (result.calculated_price % 100 ≡ 0)
calculate_variant_price-IsAboveCost_example =
    calculate_variant_price-IsAboveCost 1000 200 a_rule refl refl

-- ten units cost fifteen under the new default, and are on sale for thirteen and a half
swept :
    (state_of (apply_to_all clock 2 shelf)).products
    ≡ (
      31,
      record a_product { pricing_rule_id = some 2; price = some 150000; sale_price = some 135000 },
    )
      ∷ (32, record a_product { pricing_rule_id = some 2 })
      ∷ (33, record a_product { deleted = true })
      ∷ []
unfolding apply_to_all recalculate_rule recalculate_all recalculate_product_pricing swap_default
    ids_where find find_first update_many rows_where ◌>>=◌ gets modify or_throw pure
    calculate_variant_price calculate_sale_price
swept = refl
