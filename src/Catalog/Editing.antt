-- ===== src/Catalog/Editing.antt =====
-- pricing-rule.service.ts: how rules are created, edited, deleted and made the default.
use all_in_one_v2_api.Base.{
  ℕ, ◌+◌, ◌==◌, Bool, true, false, not, ◌&&◌, ◌||◌, Option, none, some, List, [], ◌∷◌, is_some,
  get_or, if◌then◌else◌, find_first, any_row, insert, update_many, delete_many, length, http,
  thrown, pure, ◌>>=◌, ◌>>◌, gets, guard, modify, or_throw, when, state_of,
}
use all_in_one_v2_api.Commerce.Store.{same_id}
use all_in_one_v2_api.Catalog.Prices.{MarkupType, SaleConfig, PricingRule}
use all_in_one_v2_api.Catalog.Rules.{
  Product, CatalogStore, Clock, Pricing, is_rule, find_rule, has_name, is_default_of, valid_sale,
  with_sale, uses_rule, lists_rule, ids_where, recalculate_rule,
}

-- PricingRuleWriteInput of a create
pub record NewRule : Type 0 where
  pub name : ℕ
  pub markup_value : ℕ
  pub minimum_profit : Option ℕ
  pub sale : Option SaleConfig

-- of an update; the outer `none` is undefined
pub record RuleChange : Type 0 where
  pub name : Option ℕ  -- not empty, as the route asks
  pub markup_value : Option ℕ
  pub minimum_profit : Option (Option ℕ)
  pub sale : Option (Option SaleConfig)

abbrev pub created_rule : Clock → NewRule → PricingRule
created_rule c input = with_sale input.sale record {
  tenant_id = c.tenant;
  name = input.name;
  markup_type = MarkupType.percentage;
  markup_value = input.markup_value;
  minimum_profit = input.minimum_profit;
  is_active = true;
  is_default = false;
  sale_type = none;
  sale_value = none;
  sale_starts_at = none;
  sale_ends_at = none;
}

-- createRule, which returns the id
unfoldable pub create_rule : Clock → NewRule → Pricing ℕ
create_rule c input = do
  taken ← gets (λ (s : CatalogStore). any_row (has_name c.tenant input.name) s.rules)
  guard (not taken) (http 400)
  guard (valid_sale input.sale) (http 400)
  id ← gets (λ (s : CatalogStore). s.next_id)
  modify (λ (s : CatalogStore). record s {
    rules = insert s.next_id (created_rule c input) s.rules;
    next_id = s.next_id + 1;
  })
  pure id

-- `data.name && data.name.trim() !== rule.name`, and the name is taken
abbrev pub renames_to_taken : Clock → Option ℕ → PricingRule → CatalogStore → Bool
renames_to_taken c none r s = false
renames_to_taken c (some name) r s =
    not (name == r.name) && any_row (has_name c.tenant name) s.rules

abbrev pub sale_given : Option (Option SaleConfig) → Option SaleConfig
sale_given none = none
sale_given (some sale) = sale

abbrev pub with_change : RuleChange → PricingRule → PricingRule
with_change input r = edited input.sale (record r {
  name = get_or input.name r.name;
  markup_value = get_or input.markup_value r.markup_value;
  minimum_profit = get_or input.minimum_profit r.minimum_profit;
})
  where
    edited : Option (Option SaleConfig) → PricingRule → PricingRule
    edited none q = q
    edited (some sale) q = with_sale sale q

-- updateRule
unfoldable pub update_rule : Clock → ℕ → RuleChange → Pricing (Unit {0})
update_rule c id input = do
  row ← gets (find_rule c.tenant id)
  rule ← or_throw row (http 404)
  taken ← gets (renames_to_taken c input.name rule.1)
  guard (not taken) (http 400)
  guard (valid_sale (sale_given input.sale)) (http 400)
  modify (λ (s : CatalogStore). record s {
    rules = update_many (is_rule c.tenant id) (with_change input) s.rules;
  })
  when (is_some input.markup_value || is_some input.minimum_profit || is_some input.sale)
      (modify (recalculate_rule c id))

-- deleteRule; the database refuses to delete a rule that a deleted product still refers to
unfoldable pub delete_rule : Clock → ℕ → Pricing (Unit {0})
delete_rule c id = do
  row ← gets (find_rule c.tenant id)
  rule ← or_throw row (http 404)
  guard (not (rule.1).is_default) (http 400)
  used ← gets (λ (s : CatalogStore). any_row (lists_rule c.tenant id) s.products)
  guard (not used) (http 400)
  referred ← gets (λ (s : CatalogStore). any_row (uses_rule c.tenant id) s.products)
  guard (not referred) thrown
  modify (λ (s : CatalogStore). record s { rules = delete_many (is_rule c.tenant id) s.rules })

-- the id of the default that another rule replaces
abbrev pub replaced : ℕ → Option (ℕ × PricingRule) → Option ℕ
replaced id none = none
replaced id (some (previous, _)) = if previous == id then none else some previous

abbrev pub rides : Option ℕ → Option ℕ → Bool
rides previous none = true
rides previous (some rule) = same_id previous (some rule)

-- findProductIdsEligibleForDefault
abbrev pub is_eligible : ℕ → Option ℕ → ℕ → Product → Bool
is_eligible tenant previous _ p =
    p.tenant_id == tenant && not p.deleted && rides previous p.pricing_rule_id

-- clearDefault
abbrev pub loses_default : ℕ → ℕ → ℕ → PricingRule → Bool
loses_default tenant id i r = is_default_of tenant i r && not (i == id)

abbrev pub as_default : Bool → PricingRule → PricingRule
as_default flag r = record r { is_default = flag }

abbrev pub with_rule : ℕ → Product → Product
with_rule id p = record p { pricing_rule_id = some id }

-- the transaction; the products that it moves are those that the query before it found
unfoldable pub swap_default : Clock → ℕ → Option ℕ → CatalogStore → CatalogStore
swap_default c id previous s = record s {
  rules =
      update_many (is_rule c.tenant id) (as_default true)
        (update_many (loses_default c.tenant id) (as_default false) s.rules);
  products = update_many (is_eligible c.tenant previous) (with_rule id) s.products;
}

-- applyToAll, which returns how many products moved
unfoldable pub apply_to_all : Clock → ℕ → Pricing ℕ
apply_to_all c id = do
  row ← gets (find_rule c.tenant id)
  rule ← or_throw row (http 404)
  default ← gets (λ (s : CatalogStore). find_first (is_default_of c.tenant) s.rules)
  eligible ←
      gets (λ (s : CatalogStore). ids_where (is_eligible c.tenant (replaced id default)) s.products)
  modify (swap_default c id (replaced id default))
  modify (recalculate_rule c id)
  pure (length eligible)

-- the endpoints that write rules
pub data RuleRequest : Type 0 where
  create : Clock → NewRule → RuleRequest
  edit : Clock → ℕ → RuleChange → RuleRequest
  remove : Clock → ℕ → RuleRequest
  make_default : Clock → ℕ → RuleRequest

unfoldable pub serve_rule : RuleRequest → CatalogStore → CatalogStore
serve_rule (create c input) s = state_of (create_rule c input s)
serve_rule (edit c id input) s = state_of (update_rule c id input s)
serve_rule (remove c id) s = state_of (delete_rule c id s)
serve_rule (make_default c id) s = state_of (apply_to_all c id s)

unfoldable pub serve_rules : List RuleRequest → CatalogStore → CatalogStore
serve_rules [] s = s
serve_rules (r ∷ requests) s = serve_rules requests (serve_rule r s)
