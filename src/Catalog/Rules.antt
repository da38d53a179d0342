-- ===== src/Catalog/Rules.antt =====
-- src/modules/catalog/pricing-rule.service.ts and pricing-rule.repository.ts. A trimmed name is a number,
-- and `none` an empty one. What a write returns is left out.
use all_in_one_v2_api.Base.{
  ℕ, ◌==◌, Bool, true, false, not, ◌&&◌, Option, none, some, List, [], ◌∷◌, map, ltb, if◌then◌else◌,
  Table, find_first, update_many, rows_where, Handler,
}
use all_in_one_v2_api.Commerce.Store.{same_id}
use all_in_one_v2_api.Catalog.Prices.{
  MarkupType, SaleConfig, PricingRule, is_sale_currently_active, calculate_sale_price,
  calculate_variant_price,
}

-- the columns of CatalogProduct and CatalogProductVariant that the prices are about
pub record Product : Type 0 where
  pub tenant_id : ℕ
  pub pricing_rule_id : Option ℕ
  pub price : Option ℕ
  pub sale_price : Option ℕ
  pub deleted : Bool

pub record ProductVariant : Type 0 where
  pub tenant_id : ℕ
  pub product_id : ℕ
  pub price : ℕ
  pub base_cost : Option ℕ
  pub calculated_price : Option ℕ
  pub deleted : Bool

pub record CatalogStore : Type 0 where
  pub rules : Table PricingRule
  pub products : Table Product
  pub variants : Table ProductVariant
  pub next_id : ℕ

-- the tenant and the time of a request
pub record Clock : Type 0 where
  pub tenant : ℕ
  pub now : ℕ

abbrev pub Pricing : Type 0 → Type 0
Pricing A = Handler CatalogStore A

-- PricingRuleRepository.findById
abbrev pub is_rule : ℕ → ℕ → ℕ → PricingRule → Bool
is_rule tenant id i r = i == id && r.tenant_id == tenant

abbrev pub find_rule : ℕ → ℕ → CatalogStore → Option (ℕ × PricingRule)
find_rule tenant id s = find_first (is_rule tenant id) s.rules

-- findByName
abbrev pub has_name : ℕ → ℕ → ℕ → PricingRule → Bool
has_name tenant name _ r = r.tenant_id == tenant && r.name == name

-- findDefault
abbrev pub is_default_of : ℕ → ℕ → PricingRule → Bool
is_default_of tenant _ r = r.tenant_id == tenant && r.is_default

-- ruleSaleFromRow
abbrev pub rule_sale_from_row : PricingRule → Option SaleConfig
rule_sale_from_row r = sale r.sale_type r.sale_value r.sale_starts_at r.sale_ends_at
  where
    sale : Option MarkupType → Option ℕ → Option ℕ → Option ℕ → Option SaleConfig
    sale (some kind) (some value) (some start) (some end') =
        some (record { kind = kind; value = value; starts_at = some start; ends_at = some end' })
    sale kind value start end' = none

-- validateSaleWindow
abbrev pub is_window : SaleConfig → Bool
is_window sale = ordered sale.starts_at sale.ends_at
  where
    ordered : Option ℕ → Option ℕ → Bool
    ordered (some start) (some end') = ltb start end'
    ordered start end' = false

abbrev pub valid_sale : Option SaleConfig → Bool
valid_sale none = true
valid_sale (some sale) = is_window sale

-- the four columns, always written together
abbrev pub with_sale : Option SaleConfig → PricingRule → PricingRule
with_sale none r = record r {
  sale_type = none;
  sale_value = none;
  sale_starts_at = none;
  sale_ends_at = none;
}
with_sale (some sale) r = record r {
  sale_type = some sale.kind;
  sale_value = some sale.value;
  sale_starts_at = sale.starts_at;
  sale_ends_at = sale.ends_at;
}

-- the rule of a product, which is one of its tenant
abbrev pub rule_of : Product → CatalogStore → Option PricingRule
rule_of p s = elim p.pricing_rule_id [ none ↦ none | some id ↦ found (find_rule p.tenant_id id s) ]
  where
    found : Option (ℕ × PricingRule) → Option PricingRule
    found none = none
    found (some (_, r)) = some r

abbrev pub is_variant_of : ℕ → ℕ → ℕ → ProductVariant → Bool
is_variant_of tenant product _ v = v.product_id == product && v.tenant_id == tenant && not v.deleted

-- the update of one variant; without a cost it stays
abbrev pub recalculated : Option PricingRule → ProductVariant → ProductVariant
recalculated rule v = elim v.base_cost [
  | none ↦ v
  | some cost ↦
      let result = calculate_variant_price cost rule in
      record v { calculated_price = some result.calculated_price; price = result.calculated_price }
]

abbrev pub price_of : ProductVariant → ℕ
price_of v = v.price

-- `Math.min(...prices)`
abbrev pub lowest : ℕ → List ℕ → ℕ
lowest least [] = least
lowest least (price ∷ prices) = lowest (if ltb price least then price else least) prices

abbrev pub current_sale_price : ℕ → Option PricingRule → ℕ → Option ℕ
current_sale_price now none regular = none
current_sale_price now (some r) regular = on_sale (rule_sale_from_row r)
  where
    on_sale : Option SaleConfig → Option ℕ
    on_sale none = none
    on_sale (some sale) =
        if is_sale_currently_active now sale then some (calculate_sale_price regular sale) else none

abbrev pub is_product_of : ℕ → ℕ → ℕ → Product → Bool
is_product_of tenant id i p = i == id && p.tenant_id == tenant

abbrev pub with_prices : ℕ → Option ℕ → Product → Product
with_prices regular sale p = record p { price = some regular; sale_price = sale }

-- the prices of the product, from the prices of its variants
abbrev pub price_product :
    Clock → ℕ → Option PricingRule → List ProductVariant → CatalogStore → CatalogStore
price_product c id rule [] s = s
price_product c id rule (v ∷ variants) s =
    let regular =
      lowest (recalculated rule v).price (map (λ w. price_of (recalculated rule w)) variants) in
    record s {
      variants = update_many (is_variant_of c.tenant id) (recalculated rule) s.variants;
      products =
          update_many (is_product_of c.tenant id)
            (with_prices regular (current_sale_price c.now rule regular)) s.products;
    }

-- the prices of the product that was found
abbrev pub price_found : Clock → ℕ → Option (ℕ × Product) → CatalogStore → CatalogStore
price_found c id none s = s
price_found c id (some (_, p)) s =
    price_product c id (rule_of p s) (rows_where (is_variant_of c.tenant id) s.variants) s

-- recalculateProductPricing
unfoldable pub recalculate_product_pricing : Clock → ℕ → CatalogStore → CatalogStore
recalculate_product_pricing c id s =
    price_found c id (find_first (is_product_of c.tenant id) s.products) s

-- one product after another
unfoldable pub recalculate_all : Clock → List ℕ → CatalogStore → CatalogStore
recalculate_all c [] s = s
recalculate_all c (id ∷ ids) s = recalculate_all c ids (recalculate_product_pricing c id s)

abbrev pub uses_rule : ℕ → ℕ → ℕ → Product → Bool
uses_rule tenant rule _ p = p.tenant_id == tenant && same_id (some rule) p.pricing_rule_id

abbrev pub lists_rule : ℕ → ℕ → ℕ → Product → Bool
lists_rule tenant rule i p = uses_rule tenant rule i p && not p.deleted

-- the ids of the rows that `where` selects
unfoldable pub ids_where : {A : Type 0} → (ℕ → A → Bool) → Table A → List ℕ
ids_where p [] = []
ids_where p ((i, a) ∷ t) = let rest = ids_where p t in if p i a then i ∷ rest else rest

-- findProductIdsUsingRule, and the prices of what it finds
unfoldable pub recalculate_rule : Clock → ℕ → CatalogStore → CatalogStore
recalculate_rule c rule s = recalculate_all c (ids_where (lists_rule c.tenant rule) s.products) s
